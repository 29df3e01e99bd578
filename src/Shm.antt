-- ===== src/Shm.antt =====
-- shm_pool.c: the native methods of ShmPool. Each external call is one of the world's; `close`
-- gives the descriptor back also where it reports an error.
pub mod Descriptors
pub mod Balance
pub mod Returned
use Prim.Native.Nat.{bit_or}
use wayland_java.Prelude.{ℕ, ◌+◌, ◌-◌, ◌%◌, ◌^◌, Bool, none, some, ◌∷◌, ltb, if◌then◌else◌, erase}
use wayland_java.Errors.{throw_out_of_memory, throw_io, throw_errno}
use wayland_java.Jni.{
  Call, M, pure, fail, or_else, attempt, ◌>>=◌, ◌>>◌, modify, call, ask, sys, allocate, free,
  open_fd, close_fd, jni_ptr,
}

-- Returns what it was given, behind `wl_jni_throw_from_errno(env, errno)`.
unfoldable pub errno_and_fail : M ℕ
errno_and_fail = throw_errno >> fail

-- `flags = fcntl(fd, F_GETFD)`, `fcntl(fd, F_SETFD, flags | FD_CLOEXEC)`.
unfoldable pub get_flags : ℕ → M ℕ
unfolding sys
get_flags fd = sys (Call.getfd fd)

unfoldable pub set_cloexec : ℕ → ℕ → M ℕ
unfolding sys
set_cloexec fd flags = sys (Call.setfd fd (bit_or flags 1))

-- The name is `path` and the template; mkstemp's answer is the new descriptor.
unfoldable pub make_temporary : ℕ → M ℕ
unfolding open_fd free
make_temporary name = do
  r ← attempt (open_fd Call.mkstemp)
  free name
  elim r [ none ↦ errno_and_fail | some fd ↦ pure fd ]

unfoldable pub create_tmp_file : M ℕ
unfolding call allocate close_fd
create_tmp_file = do
  or_else (call Call.getenv) (throw_io >> fail)
  name ← or_else allocate (throw_out_of_memory >> fail)
  fd ← make_temporary name
  or_else (do flags ← get_flags fd; set_cloexec fd flags; pure fd)
      (do throw_errno; attempt (close_fd fd); fail)

-- `fd = dup(fd)` and the flag; `close` runs before `errno` is read.
unfoldable pub dup_cloexec : ℕ → M ℕ
unfolding open_fd close_fd
dup_cloexec fd = do
  d ← or_else (open_fd (Call.dup fd)) errno_and_fail
  or_else (do flags ← get_flags d; set_cloexec d flags; pure d)
      (do attempt (close_fd d); errno_and_fail)

-- PROT_READ is 1 and PROT_WRITE is 2.
abbrev pub protection : Bool → ℕ
protection read_only = if read_only then 1 else 3

unfoldable pub map_buffer : ℕ → ℕ → Bool → M ℕ
unfolding sys
map_buffer fd size read_only = do
  n ← sys (Call.mmap fd size (protection read_only))
  modify (λ w. record w { mappings = n ∷ w.mappings })
  pure n

-- The mapping of `fd` or of its duplicate, up to the call of `NewDirectByteBuffer`.
unfoldable pub map_target : ℕ → ℕ → Bool → Bool → M ℕ
map_target fd size dup_fd read_only = do
  target ← if dup_fd then dup_cloexec fd else pure fd
  or_else (map_buffer target size read_only)
      (do throw_errno; (if dup_fd then attempt (close_fd target) else pure none); fail)

unfoldable pub map_native : ℕ → ℕ → Bool → Bool → M ℕ
unfolding map_target jni_ptr
map_native fd size dup_fd read_only = do
  buffer ← map_target fd size dup_fd read_only
  jni_ptr (Call.new_direct_byte_buffer buffer size)

-- `int size = GetDirectBufferCapacity(buffer)`, passed on as a `size_t` of 64 bits.
unfoldable pub int_size : ℕ → ℕ
int_size capacity =
    let low = capacity % 2 ^ 32 in if ltb low (2 ^ 31) then low else low + 2 ^ 64 - 2 ^ 32

-- The length that `munmap` is given is `int_size` of the buffer's capacity.
unfoldable pub unmap_native : ℕ → M (Unit {0})
unfolding ask sys int_size
unmap_native buffer = do
  start ← ask (Call.get_direct_buffer_address buffer)
  capacity ← ask (Call.get_direct_buffer_capacity buffer)
  r ← attempt (sys (Call.munmap start (int_size capacity)))
  elim r [
    | none ↦ throw_errno
    | some _ ↦ modify (λ w. record w { mappings = erase start w.mappings })
  ]

unfoldable pub truncate_native : ℕ → ℕ → M (Unit {0})
unfolding sys
truncate_native fd size = do
  r ← attempt (sys (Call.ftruncate fd size))
  elim r [ none ↦ throw_errno | some _ ↦ pure tt ]

unfoldable pub close_native : ℕ → M (Unit {0})
unfolding close_fd
close_native fd = do r ← attempt (close_fd fd); elim r [ none ↦ throw_errno | some _ ↦ pure tt ]

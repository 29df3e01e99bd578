-- ===== src/Shm/Balance.antt =====
-- The native methods of ShmPool on the open descriptors, and the length that unmapNative passes on.
use wayland_java.Prelude.{
  ℕ, ◌^◌, ◌<◌, ◌≡◌, ◌↔◌, Bool, true, false, Option, none, some, List, ◌∷◌, arith, if◌then◌else◌,
}
use wayland_java.Errors.Answered.{Answers, sys_answered, beside}
use wayland_java.Jni.{
  Call, World, pure, ◌>>◌, modify, returns, Triple, bind, cleanup, value, leave, attempted, weaken,
  free,
}
use wayland_java.References.Ownership.{plus}
use wayland_java.Shm.{
  errno_and_fail, make_temporary, create_tmp_file, dup_cloexec, protection, map_buffer, map_target,
  int_size,
}
use wayland_java.Shm.Descriptors.{
  Fds, get_flags-Fds, set_cloexec-Fds, call-Fds, allocate-Fds, open_fd-Fds, map_buffer-Fds,
  errno-Fds, no_memory-Fds, io-Fds, close_fd-Fds, free-Fds,
}

module _ {fs : List ℕ} {bs gs ws : ℕ → ℕ} where
  -- The mapping, with its address.
  map_buffer_answered :
      (fd size : ℕ) (read_only : Bool)
      → Triple
          (Fds fs bs gs ws)
          (map_buffer fd size read_only)
          (λ start w.
            Fds fs bs gs ws w × Answers (Call.mmap fd size (protection read_only)) start w)
          (Fds fs bs gs ws)
  unfolding map_buffer
  map_buffer_answered fd size read_only = beside (map_buffer-Fds fd size read_only) (
      bind {f = λ n. modify (λ w. record w { mappings = n ∷ w.mappings }) >> pure n}
        (sys_answered (Call.mmap fd size (protection read_only)))
        λ n. record { apply = λ w h. returns h })

module _ (fs : List ℕ) (bs gs ws : ℕ → ℕ) where
  made_temporary :
      (r : Option ℕ)
      → Triple {A = ℕ}
          (λ w. elim r [ none ↦ Fds fs bs gs ws w | some n ↦ Fds (n ∷ fs) bs gs ws w ])
          (elim r [ none ↦ errno_and_fail | some n ↦ pure n ])
          (λ n. Fds (n ∷ fs) bs gs ws)
          (Fds fs bs gs ws)
  unfolding errno_and_fail
  made_temporary none = bind errno-Fds λ _. leave (λ w o. o)
  made_temporary (some n) = value n (λ w o. o)

  free_after :
      (name : ℕ) (r : Option ℕ)
      → Triple
          (λ w. elim r [
            | none ↦ Fds fs (plus name bs) gs ws w
            | some n ↦ Fds (n ∷ fs) (plus name bs) gs ws w
          ])
          (free name)
          (λ _ w. elim r [ none ↦ Fds fs bs gs ws w | some n ↦ Fds (n ∷ fs) bs gs ws w ])
          (Fds fs bs gs ws)
  free_after name none = free-Fds name
  free_after name (some n) = free-Fds name

  make_temporary-Fds :
      (name : ℕ)
      → Triple
          (Fds fs (plus name bs) gs ws)
          (make_temporary name)
          (λ n. Fds (n ∷ fs) bs gs ws)
          (Fds fs bs gs ws)
  unfolding make_temporary
  make_temporary-Fds name =
      bind
        (attempted
          {Q = λ r w. elim r [
            | none ↦ Fds fs (plus name bs) gs ws w
            | some n ↦ Fds (n ∷ fs) (plus name bs) gs ws w
          ]}
          (open_fd-Fds Call.mkstemp))
        λ r. bind (free_after name r) λ _. made_temporary r

  -- createTmpFileNative opens one descriptor and returns it, or leaves none open; the block of the
  -- name is freed on every path.
  pub create_tmp_file-Fds :
      Triple (Fds fs bs gs ws) create_tmp_file (λ n. Fds (n ∷ fs) bs gs ws) (Fds fs bs gs ws)
  unfolding create_tmp_file
  create_tmp_file-Fds =
      bind (cleanup (call-Fds Call.getenv) (bind io-Fds λ _. leave (λ w o. o))) λ _.
        bind (cleanup allocate-Fds (bind no_memory-Fds λ _. leave (λ w o. o))) λ name.
          bind (make_temporary-Fds name) λ n.
            cleanup
              (bind (get_flags-Fds n)
                λ flags. bind (set_cloexec-Fds n flags) λ _. value n (λ w o. o))
              (bind errno-Fds λ _. bind (close_fd-Fds n) λ _. leave (λ w o. o))

  dup_cloexec-Fds :
      (fd : ℕ)
      → Triple (Fds fs bs gs ws) (dup_cloexec fd) (λ n. Fds (n ∷ fs) bs gs ws) (Fds fs bs gs ws)
  unfolding dup_cloexec errno_and_fail
  dup_cloexec-Fds fd =
      bind (cleanup (open_fd-Fds (Call.dup fd)) (bind errno-Fds λ _. leave (λ w o. o))) λ n.
        cleanup
          (bind (get_flags-Fds n) λ flags. bind (set_cloexec-Fds n flags) λ _. value n (λ w o. o))
          (bind (close_fd-Fds n) λ _. bind errno-Fds λ _. leave (λ w o. o))

  -- What a mapping leaves open: the duplicate `d`, where one was asked for. The last call maps it,
  -- or else the descriptor itself, and `start` is its answer.
  abbrev pub KeptOpen : (fd size : ℕ) (dup_fd read_only : Bool) → ℕ → World → Type 0
  KeptOpen fd size dup_fd read_only start w =
      if dup_fd
      then ((d : ℕ) × Fds (d ∷ fs) bs gs ws w
          × Answers (Call.mmap d size (protection read_only)) start w)
      else (Fds fs bs gs ws w × Answers (Call.mmap fd size (protection read_only)) start w)

  -- mapNative up to the buffer: a failure closes the duplicate again, and a success keeps it open.
  pub map_target-Fds :
      (fd size : ℕ) (dup_fd read_only : Bool)
      → Triple
          (Fds fs bs gs ws)
          (map_target fd size dup_fd read_only)
          (KeptOpen fd size dup_fd read_only)
          (Fds fs bs gs ws)
  unfolding map_target
  map_target-Fds fd size true read_only = bind (dup_cloexec-Fds fd) λ n.
      cleanup
        (weaken (λ w o. o) (λ a w (o, h). (n, o, h)) (λ w o. o)
          (map_buffer_answered n size read_only))
        (bind errno-Fds λ _. bind (close_fd-Fds n) λ _. leave (λ w o. o))
  map_target-Fds fd size false read_only =
      cleanup (map_buffer_answered fd size read_only)
        (bind errno-Fds λ _. bind (value {A = Option ℕ} none (λ w o. o)) λ _. leave (λ w o. o))

-- For a capacity below 2^63, and with a `size_t` of 64 bits, the length that `munmap` is given equals
-- it exactly when it is below 2^31.
pub int_size-exact :
    (capacity : ℕ) → capacity < 2 ^ 63 → (int_size capacity ≡ capacity) ↔ (capacity < 2 ^ 31)
unfolding int_size
int_size-exact capacity h = (λ e. ground arith, λ k. ground arith)

-- ===== src/Client/Start.antt =====
-- server/client.c: Client.startClient, which runs a program with one end of a pair of sockets.
use Prim.Native.Nat.{bit_or}
use wayland_java.Prelude.{
  ℕ, zero, suc, ◌+◌, ◌-◌, ◌/◌, ◌%◌, ◌^◌, String, Bool, true, false, Option, none, some, List, [],
  ◌∷◌, ◌==◌, if◌then◌else◌,
}
use wayland_java.Errors.{throw_out_of_memory}
use wayland_java.Jni.{
  Call, by_name, M, pure, fail, or_else, attempt, gets, ◌>>=◌, ◌>>◌, modify, ask, sys, jni,
  allocate, free, close_fd, throw, crash, return_if_pending, jni_ptr, static, wayland_call, or_null,
  checked,
}
use wayland_java.Loading.Initializers.{ensure_client}
use wayland_java.Strings.{string_to_utf8, string_to_default}

-- `args`, from the last one converted back to the first: what the loop behind `cleanup_arguments`
-- frees.
unfoldable pub free_all : List ℕ → M (Unit {0})
unfolding free
free_all [] = pure tt
free_all (arg ∷ taken) = do free arg; free_all taken

-- The loop over `jargs` from argument `i` on, with `n` arguments left, and whether it got to its end.
-- An argument that is null ends the list of `execv` early.
unfoldable pub collect : ℕ → List ℕ → ℕ → ℕ → M (List ℕ × Bool)
unfolding jni string_to_utf8
collect jargs taken i zero = pure (taken, true)
collect jargs taken i (suc n) = do
  element ← attempt (jni (Call.get_object_array_element jargs i))
  elim element [
    | none ↦ pure (taken, false)
    | some jarg ↦ do
      arg ← or_null (string_to_utf8 jarg)
      threw ← gets (λ w. w.pending)
      elim threw [
        | some _ ↦ pure (arg ∷ taken, false)
        | none ↦ collect jargs (arg ∷ taken) (i + 1) n
      ]
  ]

-- `ThrowNew` of a class by its name. NULL, where the class is not found, is undefined behaviour.
unfoldable pub throw_new : String → M (Unit {0})
unfolding jni_ptr
throw_new name = do
  cls ← or_null (jni_ptr (Call.find_class name))
  if cls == 0 then (crash >> fail) else throw (by_name name)

-- The name that is written for java/io/IOException.
abbrev pub io_exception_name : String
io_exception_name = "java/lang/io/IOException"

-- `socketpair`: both descriptors, in one answer.
unfoldable pub open_sockets : M (ℕ × ℕ)
unfolding sys
open_sockets = do
  n ← sys Call.socketpair
  let parent_end : ℕ = n / 2 ^ 32
  let child_end : ℕ = n % 2 ^ 32
  modify (λ w. record w { fds = parent_end ∷ child_end ∷ w.fds })
  pure (parent_end, child_end)

-- The child, up to `execv`, which does not return where it succeeds; `exit` never does.
unfoldable pub run_child : ℕ → ℕ → ℕ → ℕ → Bool → M (Unit {0})
unfolding close_fd wayland_call
run_child exec_path args parent_end child_end clear_environment = do
  attempt (close_fd parent_end)
  if clear_environment then wayland_call "clearenv" [] else pure tt
  wayland_call "setenv WAYLAND_SOCKET" (child_end ∷ [])
  wayland_call "execv" (exec_path ∷ args ∷ [])
  wayland_call "exit" []

-- The parent. Where `fcntl` cannot read the flags, it has returned -1.
unfoldable pub run_parent : ℕ → ℕ → ℕ → M ℕ
unfolding close_fd sys throw_new jni_ptr
run_parent jdisplay parent_end child_end = do
  attempt (close_fd child_end)
  flags ← or_else (sys (Call.getfd parent_end)) (pure (2 ^ 32 - 1))
  set ← attempt (sys (Call.setfd parent_end (bit_or flags 1)))
  elim set [
    | none ↦ do throw_new io_exception_name; pure 0
    | some _ ↦ do
      cls ← gets (static "Client.class")
      init ← gets (static "Client.init_display_int")
      or_null (jni_ptr (Call.new_object cls init (jdisplay ∷ parent_end ∷ [])))
  ]

-- From `fork` on: the new client or NULL, and `none` in the child, which does not come back.
unfoldable pub fork_client : ℕ → ℕ → ℕ → Bool → ℕ × ℕ → M (Option ℕ)
unfolding sys throw_new run_child run_parent
fork_client jdisplay exec_path args clear_environment (parent_end, child_end) = do
  pid ← attempt (sys Call.fork)
  elim pid [
    | none ↦ do throw_new io_exception_name; pure (some 0)
    | some n ↦
        if n == 0
        then (run_child exec_path args parent_end child_end clear_environment >> pure none)
        else (do jclient ← run_parent jdisplay parent_end child_end; pure (some jclient))
  ]

unfoldable pub launch : ℕ → ℕ → ℕ → Bool → M (Option ℕ)
unfolding open_sockets throw_new fork_client
launch jdisplay exec_path args clear_environment = do
  sockets ← attempt open_sockets
  elim sockets [
    | none ↦ do throw_new io_exception_name; pure (some 0)
    | some ends ↦ fork_client jdisplay exec_path args clear_environment ends
  ]

-- The path of the executable, by `getPath` of the Java file.
unfoldable pub get_exec_path : ℕ → M ℕ
unfolding jni jni_ptr string_to_default
get_exec_path jfile = do
  cls ← jni_ptr (Call.get_object_class jfile)
  mid ← jni_ptr (Call.get_method_id cls "getPath" "()Ljava/lang/String;")
  jexec_path ← jni (Call.call_method jfile mid [])
  checked (string_to_default jexec_path)

-- From `args` on, to the label `cleanup_arguments` and the end.
unfoldable pub start_program : ℕ → ℕ → ℕ → Bool → M ℕ
unfolding ask allocate free collect free_all launch
start_program jdisplay exec_path jargs clear_environment = do
  nargs ← ask (Call.get_array_length jargs)
  args ← or_else allocate (do free exec_path; throw_out_of_memory; fail)
  (taken, complete) ← collect jargs [] 0 nargs
  result ← if complete then launch jdisplay exec_path args clear_environment else pure (some 0)
  elim result [
    | none ↦ fail
    | some jclient ↦ do free_all taken; free args; free exec_path; pure jclient
  ]

unfoldable pub start_client : ℕ → ℕ → ℕ → ℕ → Bool → M ℕ
unfolding ensure_client get_exec_path start_program
start_client cls jdisplay jfile jargs clear_environment = do
  attempt (ensure_client cls)
  return_if_pending
  exec_path ← get_exec_path jfile
  start_program jdisplay exec_path jargs clear_environment

-- ===== src/Jni/Memory.antt =====
-- Blocks, references and descriptors: what is acquired is held until it is released, and a release
-- of what is not held is a fault.
use wayland_java.Prelude.{
  ℕ, suc, String, str_eq, true, Option, none, some, List, [], ◌∷◌, ◌==◌, if◌then◌else◌, has, erase,
}
use wayland_java.Jni.Calls.{Call, Throwable}
use wayland_java.Jni.State.{
  World, M, pure, fail, or_else, gets, ◌>>=◌, ◌>>◌, modify, update, call, ask, sys, jni,
}

-- `malloc`: an address is never 0.
unfoldable pub allocate : M ℕ
unfolding call
allocate = do
  n ← call Call.malloc
  modify (λ w. record w { blocks = suc n ∷ w.blocks })
  pure (suc n)

-- `free`: nothing at NULL.
unfoldable pub free : ℕ → M (Unit {0})
free p w =
    if p == 0
    then (some tt, w)
    else if has p w.blocks
    then (some tt, record w { blocks = erase p w.blocks })
    else (some tt, record w { fault = true })

-- `NewGlobalRef`: NULL, with no exception, where it fails. The reference stands for the same object.
unfoldable pub new_global_ref : ℕ → M ℕ
unfolding call
new_global_ref obj = do
  n ← call (Call.global_ref obj)
  modify (λ w. record w {
    globals = suc n ∷ w.globals;
    target = update w.target (suc n) (w.target obj);
  })
  pure (suc n)

-- `NewWeakGlobalRef`: an exception where it fails.
unfoldable pub new_weak_global_ref : ℕ → M ℕ
unfolding jni
new_weak_global_ref obj = do
  n ← jni (Call.weak_global_ref obj)
  modify (λ w. record w { weaks = suc n ∷ w.weaks })
  pure (suc n)

-- `DeleteGlobalRef`.
unfoldable pub delete_global_ref : ℕ → M (Unit {0})
delete_global_ref r w =
    if has r w.globals
    then (some tt, record w { globals = erase r w.globals })
    else (some tt, record w { fault = true })

-- `DeleteWeakGlobalRef`.
unfoldable pub delete_weak_global_ref : ℕ → M (Unit {0})
delete_weak_global_ref r w =
    if has r w.weaks
    then (some tt, record w { weaks = erase r w.weaks })
    else (some tt, record w { fault = true })

-- A descriptor that a system call has opened.
unfoldable pub open_fd : Call → M ℕ
unfolding sys
open_fd c = do n ← sys c; modify (λ w. record w { fds = n ∷ w.fds }); pure n

-- `close`: the descriptor is gone also where it reports an error.
unfoldable pub close_fd : ℕ → M ℕ
unfolding sys
close_fd fd = do modify (λ w. record w { fds = erase fd w.fds }); sys (Call.close fd)

-- An exception becomes pending.
abbrev pub throw : Throwable → M (Unit {0})
throw t = modify (λ w. record w { pending = some t })

abbrev pub crash : M (Unit {0})
crash = modify (λ w. record w { fault = true })

-- `ExceptionCheck`, with an early return.
abbrev pub return_if_pending : M (Unit {0})
return_if_pending w = elim (w.pending) [ none ↦ (some tt, w) | some t ↦ (none, w) ]

-- Calls that return a pointer: never NULL where they succeed.
unfoldable pub call_ptr : Call → M ℕ
unfolding call
call_ptr c = do pure (suc (← call c))

unfoldable pub jni_ptr : Call → M ℕ
unfolding jni
jni_ptr c = do pure (suc (← jni c))

-- The static variables, by the name of the struct member: the latest value, NULL at first.
unfoldable pub static_in : String → List (String × ℕ) → ℕ
static_in k [] = 0
static_in k ((j, v) ∷ m) = if str_eq j k then v else static_in k m

abbrev pub static : String → World → ℕ
static k w = static_in k w.statics

abbrev pub set_static : String → ℕ → M (Unit {0})
set_static k v = modify (λ w. record w { statics = (k, v) ∷ w.statics })

-- `GetLongField` and `SetLongField` of the field that holds an object's native pointer.
unfoldable pub get_long_field : ℕ → M ℕ
get_long_field obj = gets (λ w. w.long_field (w.target obj))

unfoldable pub set_long_field : ℕ → ℕ → M (Unit {0})
unfolding jni
set_long_field obj v = do
  jni (Call.put_long_field obj v)
  modify (λ w. record w { long_field = update w.long_field (w.target obj) v })

-- `NewLocalRef`: a reference to the same object, which the virtual machine gives back on return.
unfoldable pub new_local_ref : ℕ → M ℕ
unfolding call
new_local_ref obj = do
  n ← call (Call.local_ref obj)
  modify (λ w. record w { target = update w.target (suc n) (w.target obj) })
  pure (suc n)

-- A libwayland function that returns a pointer or fails with `errno`.
unfoldable pub wayland_ptr : String → List ℕ → M ℕ
unfolding sys
wayland_ptr name arguments = do pure (suc (← sys (Call.wayland name arguments)))

-- A libwayland function whose result is not read.
unfoldable pub wayland_call : String → List ℕ → M (Unit {0})
unfolding ask
wayland_call name arguments = do ask (Call.wayland name arguments); pure tt

-- A libwayland function that returns a number, and reports a failure by `errno` and -1.
unfoldable pub wayland_int : String → List ℕ → M ℕ
unfolding sys
wayland_int name arguments = sys (Call.wayland name arguments)

-- A field of a structure of libwayland, or what a function that cannot fail returns.
unfoldable pub wayland_get : String → List ℕ → M ℕ
unfolding ask
wayland_get name arguments = ask (Call.wayland name arguments)

-- The value or NULL that a function returned; an exception is tested for later.
abbrev pub or_null : M ℕ → M ℕ
or_null m = or_else m (pure 0)

-- The same, with the test for an exception behind it.
abbrev pub checked : M ℕ → M ℕ
checked m = do v ← or_null m; return_if_pending; pure v

-- `ExceptionClear`, and `ExceptionDescribe`, which clears the exception that it prints.
abbrev pub clear_exception : M (Unit {0})
clear_exception = modify (λ w. record w { pending = none })

-- `if (p == NULL) { throw; return; }`.
abbrev pub require : ℕ → M (Unit {0}) → M (Unit {0})
require p refusal = if p == 0 then (refusal >> fail) else pure tt

-- Where C goes on with memory that the function called has not written.
abbrev pub written : {A : Type 0} → Option A → M A
written none = crash >> fail
written (some a) = pure a

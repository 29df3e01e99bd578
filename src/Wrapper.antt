-- ===== src/Wrapper.antt =====
-- server/native_object_wrapper.c: the native half of a NativeObjectWrapper. The Java object's
-- `data_ptr` points to a block that points to the libwayland object, and the wrapper holds a
-- global reference to its Java object while libwayland owns the native one.
pub mod Phases
pub mod Destroyed
use wayland_java.Prelude.{ℕ, String, Bool, false, ◌||◌, not, some, ◌==◌, if◌then◌else◌}
use wayland_java.Errors.{throw_out_of_memory, throw_by_name}
use wayland_java.Jni.{
  Wrapper, M, pure, fail, or_else, attempt, gets, ◌>>=◌, ◌>>◌, modify, update, allocate, free,
  new_global_ref, delete_global_ref, return_if_pending, get_long_field, set_long_field,
}
use wayland_java.References.{register_weak_reference, unregister_reference, find_reference}

-- wl_jni_object_wrapper_from_java.
unfoldable pub wrapper_from_java : ℕ → M ℕ
unfolding get_long_field
wrapper_from_java jwrapper = if jwrapper == 0 then pure 0 else get_long_field jwrapper

abbrev pub set_wrapper : ℕ → (Wrapper → Wrapper) → M (Unit {0})
set_wrapper p f = modify (λ w. record w { wrappers = update w.wrappers p (f (w.wrappers p)) })

-- wl_jni_object_wrapper_get_data.
unfoldable pub get_data : ℕ → M ℕ
unfolding wrapper_from_java
get_data jwrapper = do
  p ← wrapper_from_java jwrapper
  return_if_pending
  if p == 0 then fail else gets (λ w. (w.wrappers p).native)

abbrev pub illegal_state_name : String
illegal_state_name = "java/lang/IllegalStateException"

-- `memset` of a new wrapper.
abbrev pub zeroed : Wrapper
zeroed = record { native = 0; linked = false; destroyed_by_owner = false; self_ref = 0 }

-- wl_jni_object_wrapper_set_data behind the test for a wrapper that is there already.
unfoldable pub attach_data : ℕ → ℕ → M ℕ
unfolding allocate free set_long_field
attach_data jwrapper native = do
  p ← or_else allocate (throw_out_of_memory >> fail)
  set_wrapper p (λ _. zeroed)
  attempt (register_weak_reference native jwrapper)
  or_else return_if_pending (do free p; fail)
  or_else (set_long_field jwrapper p) (do unregister_reference native; free p; fail)
  set_wrapper p (λ s. record s { native = native })
  pure p

unfoldable pub set_data : ℕ → ℕ → M ℕ
unfolding wrapper_from_java
set_data jwrapper native = do
  p ← wrapper_from_java jwrapper
  return_if_pending
  if p == 0 then attach_data jwrapper native else (throw_by_name illegal_state_name >> fail)

-- wl_jni_object_wrapper_owned. It is given `destroyed_by_owner` and does not read it.
unfoldable pub owned : ℕ → ℕ → Bool → M (Unit {0})
unfolding wrapper_from_java new_global_ref
owned jwrapper global_ref destroyed_by_owner = do
  p ← wrapper_from_java jwrapper
  return_if_pending
  if p == 0 then (throw_by_name illegal_state_name >> fail) else (do
    r ← if global_ref == 0 then or_else (new_global_ref jwrapper) (pure 0) else pure global_ref
    set_wrapper p (λ s. record s { self_ref = r }))

-- `wl_list_remove` of the destroy listener's link.
unfoldable pub remove_link : ℕ → M (Unit {0})
remove_link p w = (
  some tt,
  record w {
    fault = w.fault || not (w.wrappers p).linked;
    wrappers = update w.wrappers p (record (w.wrappers p) { linked = false });
  },
)

-- wl_jni_object_wrapper_disowned of a wrapper that is owned.
unfoldable pub release : ℕ → ℕ → Bool → M (Unit {0})
unfolding remove_link set_long_field delete_global_ref free
release jwrapper p destroy = do
  remove_link p
  r ← gets (λ w. (w.wrappers p).self_ref)
  if destroy
      then (do attempt (set_long_field jwrapper 0); delete_global_ref r; free p)
      else (do delete_global_ref r; set_wrapper p (λ s. record s { self_ref = 0 }))

unfoldable pub disowned : ℕ → Bool → M (Unit {0})
unfolding wrapper_from_java
disowned jwrapper destroy = do
  p ← wrapper_from_java jwrapper
  return_if_pending
  r ← gets (λ w. (w.wrappers p).self_ref)
  if p == 0
      then pure tt
      else if r == 0
      then throw_by_name illegal_state_name
      else release jwrapper p destroy

-- native_object_wrapper_destroy_notify, which libwayland calls with the wrapper's listener.
unfoldable pub destroy_notify : ℕ → M (Unit {0})
destroy_notify p = do s ← gets (λ w. w.wrappers p); disowned s.self_ref s.destroyed_by_owner

-- NativeObjectWrapper.destroyNative, called by the finalizer.
unfoldable pub destroy_native : ℕ → M (Unit {0})
unfolding wrapper_from_java set_long_field free
destroy_native jwrapper = do
  p ← wrapper_from_java jwrapper
  return_if_pending
  r ← gets (λ w. (w.wrappers p).self_ref)
  if p == 0 then pure tt else (do
    if r == 0 then pure tt else disowned jwrapper false
    attempt (set_long_field jwrapper 0)
    free p)

-- wl_jni_object_wrapper_get_java_from_data.
unfoldable pub get_java_from_data : ℕ → M ℕ
unfolding find_reference
get_java_from_data native = find_reference native

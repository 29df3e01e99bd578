-- ===== src/Listener.antt =====
-- server/listener.c: a DestroyListener. Its `listener_ptr` points to a block with a `wl_listener`
-- and a global reference to the Java object, from the time it is added to a signal until it is
-- detached.
pub mod Attached
use wayland_java.Prelude.{ℕ, true, false, ◌||◌, not, none, some, [], ◌==◌, if◌then◌else◌}
use wayland_java.Errors.{throw_out_of_memory, throw_illegal_state}
use wayland_java.Jni.{
  Call, Listener, M, pure, fail, or_else, attempt, gets, ◌>>=◌, ◌>>◌, modify, update, jni, allocate,
  free, new_global_ref, delete_global_ref, return_if_pending, static, get_long_field,
  set_long_field, new_local_ref,
}

-- wl_jni_destroy_listener_from_java.
unfoldable pub listener_from_java : ℕ → M ℕ
unfolding get_long_field
listener_from_java jlistener = if jlistener == 0 then pure 0 else get_long_field jlistener

abbrev pub set_listener : ℕ → Listener → M (Unit {0})
set_listener p l = modify (λ w. record w { listeners = update w.listeners p l })

-- `wl_signal_add`: the listener `p` is in a signal's list.
abbrev pub link_listener : ℕ → M (Unit {0})
link_listener p =
    modify (λ w. record w {
      listeners = update w.listeners p (record (w.listeners p) { linked = true });
    })

-- wl_jni_destroy_listener_add_to_signal behind the test for a listener that is attached already.
unfoldable pub attach : ℕ → M ℕ
unfolding allocate new_global_ref free set_long_field delete_global_ref
attach jlistener = do
  p ← or_else allocate (throw_out_of_memory >> fail)
  r ← or_else (new_global_ref jlistener) (do throw_out_of_memory; free p; fail)
  set_listener p (record { linked = false; self_ref = r })
  or_else (set_long_field jlistener p) (do delete_global_ref r; free p; fail)
  pure p

unfoldable pub add_to_signal : ℕ → M ℕ
unfolding listener_from_java
add_to_signal jlistener = do
  p ← listener_from_java jlistener
  if p == 0 then attach jlistener else (throw_illegal_state >> fail)

-- DestroyListener.detach of a listener that is attached.
unfoldable pub detach_listener : ℕ → ℕ → M (Unit {0})
unfolding delete_global_ref free set_long_field
detach_listener jlistener p = do
  l ← gets (λ w. w.listeners p)
  modify (λ w. record w {
    fault = w.fault || not l.linked;
    listeners = update w.listeners p (record l { linked = false });
  })
  delete_global_ref l.self_ref
  free p
  set_long_field jlistener 0

unfoldable pub detach : ℕ → M (Unit {0})
unfolding listener_from_java
detach jlistener = do
  p ← listener_from_java jlistener
  return_if_pending
  if p == 0 then pure tt else detach_listener jlistener p

-- listener_notify_func: `onDestroy`, and then `detach` unless it threw. ExceptionDescribe clears
-- the exception that it prints.
unfoldable pub listener_notify_func : ℕ → M (Unit {0})
unfolding new_local_ref jni
listener_notify_func p = do
  l ← gets (λ w. w.listeners p)
  jlistener ← or_else (new_local_ref l.self_ref) (pure 0)
  on_destroy ← gets (static "DestroyListener.onDestroy")
  attempt (jni (Call.call_method l.self_ref on_destroy []))
  threw ← gets (λ w. w.pending)
  elim threw [ some _ ↦ modify (λ w. record w { pending = none }) | none ↦ detach jlistener ]

-- ===== src/EventLoop.antt =====
-- server/event_loop.c: event sources. A source's handler is a block with a global reference to the
-- Java handler, and a listener on the loop's destroy signal.
pub mod Handlers
pub mod Dangling
use wayland_java.Prelude.{
  ℕ, ◌^◌, String, Bool, true, false, ◌||◌, not, none, List, [], ◌∷◌, ltb, ◌==◌, if◌then◌else◌,
}
use wayland_java.Errors.{throw_out_of_memory, throw_illegal_argument, throw_errno}
use wayland_java.Jni.{
  Call, Handler, M, pure, fail, or_else, attempt, gets, ◌>>=◌, ◌>>◌, modify, update, jni, allocate,
  free, new_global_ref, delete_global_ref, return_if_pending, jni_ptr, static, wayland_ptr,
  wayland_call,
}
use wayland_java.Loading.Initializers.{ensure_event_loop}
use wayland_java.Wrapper.{get_data, set_data}

abbrev pub set_handler : ℕ → Handler → M (Unit {0})
set_handler p h = modify (λ w. record w { handlers = update w.handlers p h })

-- create_source_wrapper: the reference, the listener on the loop, and the Java object.
unfoldable pub create_source_wrapper : ℕ → ℕ → ℕ → ℕ → ℕ → M ℕ
unfolding new_global_ref jni_ptr
create_source_wrapper loop source handler jhandler method_id = do
  r ← new_global_ref jhandler
  set_handler handler (record { jhandler = r; mid = method_id; linked = true })
  source_class ← gets (static "EventLoop.EventSource.class")
  init ← gets (static "EventLoop.EventSource.init_long_long")
  jni_ptr (Call.new_object source_class init (source ∷ handler ∷ []))

-- What the four functions that add a source share, behind their tests of the arguments: the
-- block, the source by the libwayland function `name`, and the Java object.
unfoldable pub add_source : ℕ → ℕ → String → List ℕ → String → M ℕ
unfolding free wayland_ptr wayland_call
add_source loop jhandler name arguments method_slot = do
  handler ← or_else allocate (throw_out_of_memory >> fail)
  source ←
      or_else (wayland_ptr name (loop ∷ handler ∷ arguments)) (do free handler; throw_errno; fail)
  method_id ← gets (static method_slot)
  or_else (create_source_wrapper loop source handler jhandler method_id)
      (do free handler; wayland_call "wl_event_source_remove" (source ∷ []); fail)

-- wl_jni_event_loop_from_java, and the test for an exception.
unfoldable pub loop_or_return : ℕ → M ℕ
loop_or_return jevent_loop = do
  loop ← or_else (get_data jevent_loop) (pure 0)
  return_if_pending
  pure loop

-- wl_jni_event_loop_create, the Java object of a native event loop.
unfoldable pub event_loop_create : ℕ → M ℕ
unfolding jni_ptr
event_loop_create loop = do
  attempt (ensure_event_loop 0)
  loop_class ← gets (static "EventLoop.class")
  init ← gets (static "EventLoop.init_long")
  jni_ptr (Call.new_object loop_class init (loop ∷ []))

-- A `jint` by its bit pattern.
abbrev pub is_negative : ℕ → Bool
is_negative n = not (ltb n (2 ^ 31))

unfoldable pub add_file_descriptor : ℕ → ℕ → ℕ → ℕ → M ℕ
unfolding loop_or_return add_source
add_file_descriptor jevent_loop fd mask jhandler = do
  loop ← loop_or_return jevent_loop
  if is_negative fd
      then (throw_illegal_argument >> fail)
      else add_source loop jhandler "wl_event_loop_add_fd" (fd ∷ mask ∷ [])
          "EventLoop.FileDescriptorEventHandler.handleFileDescriptorEvent"

-- Java_org_freedesktop_wayland_server_EventLoop_addTier, as the source spells it.
unfoldable pub add_tier : ℕ → ℕ → M ℕ
unfolding loop_or_return add_source
add_tier jevent_loop jhandler = do
  loop ← loop_or_return jevent_loop
  add_source loop jhandler "wl_event_loop_add_timer" []
      "EventLoop.TimerEventHandler.handleTimerEvent"

unfoldable pub add_signal : ℕ → ℕ → ℕ → M ℕ
unfolding loop_or_return add_source
add_signal jevent_loop signal_number jhandler = do
  loop ← loop_or_return jevent_loop
  add_source loop jhandler "wl_event_loop_add_signal" (signal_number ∷ [])
      "EventLoop.SignalEventHandler.handleSignalEvent"

unfoldable pub add_idle : ℕ → ℕ → M ℕ
unfolding loop_or_return add_source
add_idle jevent_loop jhandler = do
  loop ← loop_or_return jevent_loop
  add_source loop jhandler "wl_event_loop_add_idle" [] "EventLoop.IdleHandler.handleIdle"

-- event_handler_destroy, and event_handler_destroy_func on the handler of its listener.
unfoldable pub event_handler_destroy : ℕ → M (Unit {0})
event_handler_destroy p = do
  h ← gets (λ w. w.handlers p)
  delete_global_ref h.jhandler
  modify (λ w. record w {
    fault = w.fault || not h.linked;
    handlers = update w.handlers p (record h { linked = false });
  })
  free p

-- handle_event_loop_fd_call, handle_event_loop_timer_call and handle_event_loop_signal_call, by
-- the arguments of the Java method. An exception stays pending.
unfoldable pub handle_event_loop_call : ℕ → List ℕ → M ℕ
unfolding jni
handle_event_loop_call p arguments = do
  h ← gets (λ w. w.handlers p)
  or_else (jni (Call.call_method h.jhandler h.mid arguments)) (pure 0)

-- handle_event_loop_idle_call: an idle source runs once. ExceptionDescribe clears the exception.
unfoldable pub handle_event_loop_idle_call : ℕ → M (Unit {0})
unfolding jni event_handler_destroy
handle_event_loop_idle_call p = do
  h ← gets (λ w. w.handlers p)
  attempt (jni (Call.call_method h.jhandler h.mid []))
  event_handler_destroy p
  modify (λ w. record w { pending = none })

unfoldable pub dispatch : ℕ → ℕ → M (Unit {0})
unfolding wayland_call
dispatch jevent_loop timeout = do
  loop ← or_else (get_data jevent_loop) (pure 0)
  wayland_call "wl_event_loop_dispatch" (loop ∷ timeout ∷ [])

unfoldable pub dispatch_idle : ℕ → M (Unit {0})
unfolding wayland_call
dispatch_idle jevent_loop = do
  loop ← or_else (get_data jevent_loop) (pure 0)
  wayland_call "wl_event_loop_dispatch_idle" (loop ∷ [])

-- EventLoop._create and EventLoop._destroy.
unfoldable pub loop_create : ℕ → ℕ → M ℕ
unfolding wayland_ptr
loop_create jevent_loop native_ptr = do
  loop ←
      if native_ptr == 0
      then or_else (wayland_ptr "wl_event_loop_create" []) (throw_out_of_memory >> fail)
      else pure native_ptr
  set_data jevent_loop loop

unfoldable pub loop_destroy : ℕ → M (Unit {0})
unfolding wayland_call
loop_destroy jloop = do
  loop ← or_else (get_data jloop) (pure 0)
  if loop == 0 then pure tt else wayland_call "wl_event_loop_destroy" (loop ∷ [])

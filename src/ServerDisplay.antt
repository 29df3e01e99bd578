-- ===== src/ServerDisplay.antt =====
-- server/display.c: the Display of a server, whose native object is registered as a reference.
pub mod Registered
use wayland_java.Prelude.{ℕ, true, [], ◌∷◌, ◌==◌, if◌then◌else◌}
use wayland_java.Errors.{throw_out_of_memory, throw_null_pointer}
use wayland_java.EventLoop.{event_loop_create}
use wayland_java.Jni.{
  Call, M, pure, fail, or_else, attempt, ◌>>=◌, ◌>>◌, free, crash, return_if_pending, call_ptr,
  jni_ptr, set_static, get_long_field, set_long_field, wayland_ptr, wayland_call, wayland_get,
  or_null, require,
}
use wayland_java.References.{register_reference, unregister_reference, find_reference}
use wayland_java.Strings.{string_to_default}
use wayland_java.Wrapper.{wrapper_from_java, set_wrapper, owned, get_java_from_data}

-- wl_jni_display_from_java. JNI does not allow a null object here.
unfoldable pub display_from_java : ℕ → M ℕ
unfolding get_long_field
display_from_java jdisplay = get_long_field jdisplay

-- wl_jni_display_to_java.
unfoldable pub display_to_java : ℕ → M ℕ
unfolding find_reference
display_to_java display = find_reference display

-- The Java object of an event loop that has none, and that the native loop then owns.
unfoldable pub adopt_loop : ℕ → M ℕ
unfolding event_loop_create wrapper_from_java owned
adopt_loop loop = do
  jloop ← event_loop_create loop
  wrapper ← wrapper_from_java jloop
  if wrapper == 0 then fail else pure tt
  attempt (owned jloop 0 true)
  return_if_pending
  set_wrapper wrapper (λ s. record s { linked = true })
  pure jloop

-- Display.getEventLoop.
unfoldable pub get_event_loop : ℕ → M ℕ
unfolding display_from_java wayland_get get_java_from_data adopt_loop
get_event_loop jdisplay = do
  display ← display_from_java jdisplay
  return_if_pending
  loop ← wayland_get "wl_display_get_event_loop" (display ∷ [])
  or_else (get_java_from_data loop) (adopt_loop loop)

-- Display.addSocket.
unfoldable pub add_socket : ℕ → ℕ → M ℕ
unfolding display_from_java string_to_default wayland_get free
add_socket jdisplay jname = do
  display ← display_from_java jdisplay
  require jname throw_null_pointer
  name ← string_to_default jname
  fd ← wayland_get "wl_display_add_socket" (display ∷ name ∷ [])
  free name
  pure fd

-- Display.terminate.
unfoldable pub terminate : ℕ → M (Unit {0})
unfolding display_from_java wayland_call
terminate jdisplay = do
  display ← display_from_java jdisplay
  wayland_call "wl_display_terminate" (display ∷ [])

-- Display.run.
unfoldable pub run : ℕ → M (Unit {0})
unfolding display_from_java wayland_call
run jdisplay = do display ← display_from_java jdisplay; wayland_call "wl_display_run" (display ∷ [])

-- Display.flushClients.
unfoldable pub flush_clients : ℕ → M (Unit {0})
unfolding display_from_java wayland_call
flush_clients jdisplay = do
  display ← display_from_java jdisplay
  wayland_call "wl_display_flush_clients" (display ∷ [])

-- Display.getSerial.
unfoldable pub get_serial : ℕ → M ℕ
unfolding display_from_java wayland_get
get_serial jdisplay = do
  display ← display_from_java jdisplay
  wayland_get "wl_display_get_serial" (display ∷ [])

-- Display.nextSerial.
unfoldable pub next_serial : ℕ → M ℕ
unfolding display_from_java wayland_get
next_serial jdisplay = do
  display ← display_from_java jdisplay
  wayland_get "wl_display_next_serial" (display ∷ [])

-- The field `display_ptr`, looked up by the object's class. JNI is given what the lookups return.
unfoldable pub set_display_ptr : ℕ → ℕ → M (Unit {0})
unfolding jni_ptr set_long_field
set_display_ptr jdisplay display = do
  cls ← or_null (jni_ptr (Call.get_object_class jdisplay))
  fid ← or_null (jni_ptr (Call.get_field_id cls "display_ptr" "J"))
  if fid == 0 then crash else (attempt (set_long_field jdisplay display) >> pure tt)

-- Display.create. Neither the native display nor the registration is tested.
unfoldable pub display_create : ℕ → M (Unit {0})
unfolding wayland_ptr register_reference set_display_ptr
display_create jdisplay = do
  display ← or_null (wayland_ptr "wl_display_create" [])
  attempt (register_reference display jdisplay)
  set_display_ptr jdisplay display

-- Display.destroy.
unfoldable pub display_destroy : ℕ → M (Unit {0})
unfolding display_from_java wayland_call unregister_reference set_display_ptr
display_destroy jdisplay = do
  display ← display_from_java jdisplay
  if display == 0 then pure tt else (do
    wayland_call "wl_display_destroy" (display ∷ [])
    unregister_reference display
    set_display_ptr jdisplay 0)

-- Display.initializeJNI.
unfoldable pub initialize_server_display : ℕ → M (Unit {0})
unfolding call_ptr jni_ptr
initialize_server_display cls = do
  r ← or_null (call_ptr (Call.global_ref cls))
  set_static "Display.class" r
  or_else return_if_pending (throw_out_of_memory >> fail)
  field_id ← or_null (jni_ptr (Call.get_field_id cls "display_ptr" "J"))
  set_static "Display.display_ptr" field_id

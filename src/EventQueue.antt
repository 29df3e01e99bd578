-- ===== src/EventQueue.antt =====
-- client/event_queue.c: the native pointer of an EventQueue, and its Java object.
use wayland_java.Prelude.{ℕ, [], ◌∷◌, ◌==◌, if◌then◌else◌}
use wayland_java.Jni.{Call, M, fail, ◌>>=◌, ◌>>◌, jni_ptr, get_long_field}

-- wl_jni_event_queue_from_java.
unfoldable pub event_queue_from_java : ℕ → M ℕ
unfolding jni_ptr get_long_field
event_queue_from_java jqueue = do
  cls ← jni_ptr (Call.get_object_class jqueue)
  jni_ptr (Call.get_field_id cls "event_queue_ptr" "J")
  get_long_field jqueue

-- wl_jni_event_queue_create_from_native. The signature of the constructor is written `J`.
unfoldable pub event_queue_create_from_native : ℕ → M ℕ
unfolding jni_ptr
event_queue_create_from_native queue = if queue == 0 then fail else (do
  cls ← jni_ptr (Call.find_class "org/freedesktop/wayland/client/EventQueue")
  ctor ← jni_ptr (Call.get_method_id cls "<init>" "J")
  jni_ptr (Call.new_object cls ctor (queue ∷ [])))

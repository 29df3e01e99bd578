-- ===== src/Arguments/Dispatched.antt =====
-- What wl_jni_resource_dispatcher (server/resource.c) and wl_jni_proxy_dispatcher (client/proxy.c)
-- share: the Java method of a message is called with the converted arguments.
use wayland_java.Prelude.{ℕ, ◌+◌, String, Bool, List, ◌∷◌}
use wayland_java.Arguments.Counts.{count_if}
use wayland_java.Arguments.ToJava.{arguments_to_java}
use wayland_java.Errors.{throw_out_of_memory, throw_null_pointer}
use wayland_java.Jni.{
  Call, M, fail, or_else, attempt, gets, ◌>>=◌, ◌>>◌, ask, jni, allocate, free, return_if_pending,
  static, checked, require, written,
}

-- `to_java` is the conversion of objects, `member` the field with the implementation, and `is_ref` the
-- count of the references that the frame must hold.
module _ (to_java : ℕ → M ℕ) (member : String) (is_ref : ℕ → Bool) (new_id_is_object : Bool)
    (length_at : ℕ → ℕ) (array_at : ℕ → ℕ × ℕ) where
  -- The part between PushLocalFrame and PopLocalFrame; `mid` is the method of the message.
  unfoldable pub call_implementation : ℕ → ℕ → List ℕ → List ℕ → M ℕ
  unfolding arguments_to_java jni
  call_implementation object mid signature args = do
    jobject ← checked (to_java object)
    require jobject throw_null_pointer
    field_id ← gets (static member)
    implementation ← jni (Call.get_object_field jobject field_id)
    result ← attempt (arguments_to_java to_java length_at array_at new_id_is_object args signature)
    return_if_pending
    jargs ← written result
    jni (Call.call_method implementation mid (jobject ∷ jargs))

  -- From the counts to the `free`. Where PushLocalFrame fails, the block of `jargs` is not freed.
  unfoldable pub dispatch_message : ℕ → ℕ → List ℕ → List ℕ → M (Unit {0})
  unfolding allocate jni ask free call_implementation
  dispatch_message object mid signature args = do
    jargs ← or_else allocate (throw_out_of_memory >> fail)
    jni (Call.push_local_frame (count_if is_ref signature + 2))
    attempt (call_implementation object mid signature args)
    ask Call.pop_local_frame
    free jargs

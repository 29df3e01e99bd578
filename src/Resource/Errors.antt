-- ===== src/Resource/Errors.antt =====
-- server/resource.c: handle_resource_errors, which turns the exception that a request has left into a
-- protocol error. It returns 0, or -1, which is an early return here.
use wayland_java.Prelude.{ℕ, suc, String, Bool, true, not, none, some, [], ◌∷◌, ◌==◌, if◌then◌else◌}
use wayland_java.Jni.{
  Call, M, pure, fail, gets, ◌>>=◌, ◌>>◌, ask, jni, free, static, wayland_call, or_null,
  clear_exception,
}
use wayland_java.Strings.{string_to_utf8}

-- `IsInstanceOf` of a class in a static variable.
unfoldable pub is_instance : ℕ → String → M Bool
unfolding ask
is_instance exception member = do
  cls ← gets (static member)
  n ← ask (Call.is_instance_of exception cls)
  pure (not (n == 0))

-- `ExceptionOccurred`: NULL where none is pending.
unfoldable pub get_exception : M ℕ
unfolding ask
get_exception = do
  threw ← gets (λ w. w.pending)
  elim threw [ none ↦ pure 0 | some _ ↦ do n ← ask Call.exception_occurred; pure (suc n) ]

-- The label `unhandled_exception`.
unfoldable pub unhandled_exception : M ℕ
unhandled_exception = clear_exception >> fail

-- The label `out_of_memory`.
unfoldable pub post_no_memory : ℕ → M ℕ
unfolding wayland_call
post_no_memory resource = do
  wayland_call "wl_resource_post_no_memory" (resource ∷ [])
  clear_exception
  pure 0

-- Behind a second exception. It is the first one that is tested again.
unfoldable pub second_exception : ℕ → ℕ → M ℕ
unfolding is_instance post_no_memory unhandled_exception
second_exception resource exception = do
  oom ← is_instance exception "resource.java.lang.OutOfMemoryError.class"
  if oom then post_no_memory resource else unhandled_exception

-- `wl_resource_post_error`, and the end of the function.
unfoldable pub post_and_clear : ℕ → ℕ → ℕ → M ℕ
unfolding wayland_call free
post_and_clear resource code c_msg = do
  wayland_call "wl_resource_post_error" (resource ∷ code ∷ c_msg ∷ [])
  free c_msg
  clear_exception
  pure 0

-- WL_DISPLAY_ERROR_INVALID_METHOD.
abbrev pub invalid_method : ℕ
invalid_method = 1

-- The error code, by the class of the exception.
unfoldable pub post_message : ℕ → ℕ → ℕ → M ℕ
unfolding is_instance post_and_clear jni free unhandled_exception
post_message resource exception c_msg = do
  no_method ← is_instance exception "resource.java.lang.NoSuchMethodError.class"
  if no_method then post_and_clear resource invalid_method c_msg else (do
    request_error ← is_instance exception "RequestError.class"
    if request_error
        then (do
          error_code ← gets (static "RequestError.errorCode")
          code ← or_null (jni (Call.get_int_field exception error_code))
          post_and_clear resource code c_msg)
        else (free c_msg >> unhandled_exception))

-- The message as a C string.
unfoldable pub convert_message : ℕ → ℕ → ℕ → M ℕ
unfolding string_to_utf8 second_exception post_message
convert_message resource exception message = do
  c_msg ← or_null (string_to_utf8 message)
  threw ← gets (λ w. w.pending)
  elim threw [
    | some _ ↦ second_exception resource exception
    | none ↦ post_message resource exception c_msg
  ]

-- The message of an exception that stands for a protocol error.
unfoldable pub get_message : ℕ → ℕ → M ℕ
unfolding jni second_exception convert_message
get_message resource exception = do
  clear_exception
  mid ← gets (static "resource.java.lang.Throwable.getMessage")
  message ← or_null (jni (Call.call_method exception mid []))
  threw ← gets (λ w. w.pending)
  elim threw [
    | some _ ↦ second_exception resource exception
    | none ↦ convert_message resource exception message
  ]

-- Behind ExceptionDescribe, which clears the exception that it prints.
unfoldable pub handle_exception : ℕ → ℕ → M ℕ
unfolding is_instance post_no_memory get_message unhandled_exception
handle_exception resource exception = do
  clear_exception
  oom ← is_instance exception "resource.java.lang.OutOfMemoryError.class"
  if oom then post_no_memory resource else (do
    no_method ← is_instance exception "resource.java.lang.NoSuchMethodError.class"
    known ← if no_method then pure true else is_instance exception "RequestError.class"
    if known then get_message resource exception else unhandled_exception)

unfoldable pub handle_resource_errors : ℕ → M ℕ
unfolding get_exception handle_exception
handle_resource_errors resource = do
  exception ← get_exception
  if exception == 0 then pure 0 else handle_exception resource exception

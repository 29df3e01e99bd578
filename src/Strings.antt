-- ===== src/Strings.antt =====
-- The string conversions of wayland-jni.c. The characters are the virtual machine's business: the
-- model has the calls, the block that the caller must free, and every early return.
pub mod Account
pub mod Quiet
pub mod Calm
pub mod Held
use wayland_java.Prelude.{ℕ, String, Option, none, some, List, [], ◌∷◌, ◌==◌, if◌then◌else◌}
use wayland_java.Errors.{throw_out_of_memory, ensure_object_cache}
use wayland_java.Jni.{
  Call, M, pure, fail, or_else, gets, ◌>>=◌, ◌>>◌, ask, jni, allocate, free, jni_ptr, static,
}

-- wl_jni_string_from_utf8 of a C string, NULL or not; `none` is NULL.
unfoldable pub string_from_utf8 : Option ℕ → M ℕ
unfolding jni jni_ptr
string_from_utf8 none = fail
string_from_utf8 (some len) = do
  ensure_object_cache
  jni (Call.ensure_local_capacity 2)
  bytes ← jni_ptr (Call.new_byte_array len)
  jni (Call.set_byte_array_region bytes)
  string ← gets (static "java.lang.String.class")
  init ← gets (static "java.lang.String.init_bytes_charset")
  utf8 ← gets (static "java.nio.charset.utf8")
  jni_ptr (Call.new_object string init (bytes ∷ utf8 ∷ []))

-- The part that wl_jni_string_to_utf8 and wl_jni_string_to_default share: the bytes by a method of
-- java.lang.String, copied into a fresh block.
unfoldable pub copy_bytes : ℕ → String → List ℕ → M ℕ
unfolding jni jni_ptr ask allocate free
copy_bytes java_str method_slot arguments = do
  jni (Call.ensure_local_capacity 1)
  get_bytes ← gets (static method_slot)
  bytes ← jni_ptr (Call.call_method java_str get_bytes arguments)
  ask (Call.get_array_length bytes)
  c_str ← or_else allocate (throw_out_of_memory >> fail)
  or_else (jni (Call.get_byte_array_region bytes)) (do free c_str; fail)
  pure c_str

-- wl_jni_string_to_utf8: NULL for a null string, with no exception.
unfoldable pub string_to_utf8 : ℕ → M ℕ
string_to_utf8 java_str = if java_str == 0 then fail else do
  ensure_object_cache
  utf8 ← gets (static "java.nio.charset.utf8")
  copy_bytes java_str "java.lang.String.getBytes_charset" (utf8 ∷ [])

-- wl_jni_string_to_default.
unfoldable pub string_to_default : ℕ → M ℕ
string_to_default java_str =
    if java_str == 0
    then fail
    else do ensure_object_cache; copy_bytes java_str "java.lang.String.getBytes" []

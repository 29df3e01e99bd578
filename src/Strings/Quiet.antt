-- ===== src/Strings/Quiet.antt =====
-- A conversion to a C string that returns, from a world without a pending exception, leaves none.
use wayland_java.Prelude.{ℕ, String, Bool, true, false, List, [], ◌∷◌, ◌==◌, if◌then◌else◌}
use wayland_java.Errors.{throw_out_of_memory}
use wayland_java.Errors.Quiet.{
  Quiet, jni-Quiet, jni_ptr-Quiet, ask-Quiet, allocate-Quiet, gets-Quiet, or_ends-Quiet,
  ensure_object_cache-Quiet,
}
use wayland_java.Jni.{Call, M, fail, bind, value, leave, free, static}
use wayland_java.Strings.{copy_bytes, string_to_utf8, string_to_default}

copy_bytes-Quiet :
    (str : ℕ) (member : String) (arguments : List ℕ) → Quiet (copy_bytes str member arguments)
unfolding copy_bytes
copy_bytes-Quiet str member arguments = bind (jni-Quiet (Call.ensure_local_capacity 1)) λ _.
    bind (gets-Quiet (static member)) λ get_bytes.
      bind (jni_ptr-Quiet (Call.call_method str get_bytes arguments)) λ bytes.
        bind (ask-Quiet (Call.get_array_length bytes)) λ _.
          bind (or_ends-Quiet throw_out_of_memory allocate-Quiet) λ c.
            bind (or_ends-Quiet (free c) (jni-Quiet (Call.get_byte_array_region bytes)))
              λ _. value c (λ w p. p)

null_or-Quiet : (b : Bool) {m : M ℕ} → Quiet m → Quiet (if b then fail else m)
null_or-Quiet true q = leave (λ w p. tt)
null_or-Quiet false q = q

pub string_to_utf8-Quiet : (str : ℕ) → Quiet (string_to_utf8 str)
unfolding string_to_utf8
string_to_utf8-Quiet str = null_or-Quiet (str == 0) (
    bind ensure_object_cache-Quiet λ _.
      bind (gets-Quiet (static "java.nio.charset.utf8"))
        λ utf8. copy_bytes-Quiet str "java.lang.String.getBytes_charset" (utf8 ∷ []))

pub string_to_default-Quiet : (str : ℕ) → Quiet (string_to_default str)
unfolding string_to_default
string_to_default-Quiet str =
    null_or-Quiet (str == 0)
      (bind ensure_object_cache-Quiet λ _. copy_bytes-Quiet str "java.lang.String.getBytes" [])

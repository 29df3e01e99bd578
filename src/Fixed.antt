-- ===== src/Fixed.antt =====
-- fixed.c: the conversion of fixed-point numbers. Nothing tests the lookups of the class, of its
-- field and of its constructor, and a failed one leaves NULL behind.
use wayland_java.Prelude.{ℕ, String, [], ◌∷◌, ◌==◌, if◌then◌else◌}
use wayland_java.Jni.{
  Call, M, pure, or_else, gets, ◌>>=◌, ◌>>◌, jni, call_ptr, jni_ptr, static, set_static,
}

-- A lookup whose result is stored whatever it is.
abbrev pub stored : String → M ℕ → M (Unit {0})
stored member m = do set_static member (← or_else m (pure 0))

unfoldable pub load_fixed : M (Unit {0})
unfolding jni_ptr call_ptr
load_fixed = do
  cls ← or_else (jni_ptr (Call.find_class "org/freedesktop/wayland/Fixed")) (pure 0)
  stored "Fixed.class" (call_ptr (Call.global_ref cls))
  fixed_class ← gets (static "Fixed.class")
  stored "Fixed.data" (jni_ptr (Call.get_field_id fixed_class "data" "I"))
  stored "Fixed.init" (jni_ptr (Call.get_method_id fixed_class "<init>" "(IZ)V"))

-- The ensure_object_cache of this file.
unfoldable pub ensure_fixed : M (Unit {0})
unfolding load_fixed
ensure_fixed = do
  fixed_class ← gets (static "Fixed.class")
  if fixed_class == 0 then load_fixed else pure tt

-- A `wl_fixed_t` by the number of its `int`.
unfoldable pub fixed_from_java : ℕ → M ℕ
unfolding jni ensure_fixed
fixed_from_java jfixed = do
  ensure_fixed
  data_field ← gets (static "Fixed.data")
  jni (Call.get_int_field jfixed data_field)

unfoldable pub fixed_to_java : ℕ → M ℕ
unfolding jni_ptr ensure_fixed
fixed_to_java fixed = do
  ensure_fixed
  fixed_class ← gets (static "Fixed.class")
  init ← gets (static "Fixed.init")
  jni_ptr (Call.new_object fixed_class init (fixed ∷ 1 ∷ []))

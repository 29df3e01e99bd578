-- ===== src/Arguments/Kept.antt =====
-- object.c: the account of blocks and references behind wl_jni_arguments_to_java.
use wayland_java.Prelude.{
  ℕ, String, len, Bool, ◌||◌, Option, none, some, List, [], ◌∷◌, ◌==◌, if◌then◌else◌,
}
use wayland_java.Arguments.{Details, get_next_argument}
use wayland_java.Arguments.ToJava.{is_missing, argument_to_java, arguments_to_java}
use wayland_java.Fixed.{stored, load_fixed, ensure_fixed, fixed_to_java}
use wayland_java.Jni.{Call, M, bind, value, leave, static}
use wayland_java.References.Keeps.{
  Keeps, throwing, pick, or_null-Keeps, checked-Keeps, set_static-Keeps,
}
use wayland_java.References.Ownership.{call_ptr-Owned, jni-Owned, jni_ptr-Owned, gets-Owned}
use wayland_java.References.Registry.{null_pointer-Owned, illegal_argument-Owned, cache-Owned}
use wayland_java.Strings.{string_from_utf8}

module _ (bs gs ws : ℕ → ℕ) where
  stored-Keeps : (member : String) {m : M ℕ} → Keeps bs gs ws m → Keeps bs gs ws (stored member m)
  stored-Keeps member t = bind (or_null-Keeps t) (set_static-Keeps member)

  load_fixed-Keeps : Keeps bs gs ws load_fixed
  unfolding load_fixed
  load_fixed-Keeps =
      bind (or_null-Keeps (jni_ptr-Owned (Call.find_class "org/freedesktop/wayland/Fixed"))) λ cls.
        bind (stored-Keeps "Fixed.class" (call_ptr-Owned (Call.global_ref cls))) λ _.
          bind (gets-Owned (static "Fixed.class")) λ c.
            bind (stored-Keeps "Fixed.data" (jni_ptr-Owned (Call.get_field_id c "data" "I")))
              λ _. stored-Keeps "Fixed.init" (jni_ptr-Owned (Call.get_method_id c "<init>" "(IZ)V"))

  pub ensure_fixed-Keeps : Keeps bs gs ws ensure_fixed
  unfolding ensure_fixed
  ensure_fixed-Keeps =
      bind (gets-Owned (static "Fixed.class"))
        λ c. pick (c == 0) load_fixed-Keeps (value tt (λ w o. o))

  fixed_to_java-Keeps : (fixed : ℕ) → Keeps bs gs ws (fixed_to_java fixed)
  unfolding fixed_to_java
  fixed_to_java-Keeps fixed = bind ensure_fixed-Keeps λ _.
      bind (gets-Owned (static "Fixed.class")) λ c.
        bind (gets-Owned (static "Fixed.init"))
          λ i. jni_ptr-Owned (Call.new_object c i (fixed ∷ 1 ∷ []))

  string_from_utf8-Keeps : (str : Option ℕ) → Keeps bs gs ws (string_from_utf8 str)
  unfolding string_from_utf8
  string_from_utf8-Keeps none = leave (λ w o. o)
  string_from_utf8-Keeps (some len) = bind cache-Owned λ _.
      bind (jni-Owned (Call.ensure_local_capacity 2)) λ _.
        bind (jni_ptr-Owned (Call.new_byte_array len)) λ bytes.
          bind (jni-Owned (Call.set_byte_array_region bytes)) λ _.
            bind (gets-Owned (static "java.lang.String.class")) λ c.
              bind (gets-Owned (static "java.lang.String.init_bytes_charset")) λ i.
                bind (gets-Owned (static "java.nio.charset.utf8"))
                  λ u. jni_ptr-Owned (Call.new_object c i (bytes ∷ u ∷ []))

  module _ (conversion : ℕ → M ℕ) (keeps : (o : ℕ) → Keeps bs gs ws (conversion o))
      (length_at : ℕ → ℕ) (array_at : ℕ → ℕ × ℕ) (new_id_is_object : Bool) where
    argument_to_java-Keeps :
        (d : Details) (arg : ℕ)
        → Keeps bs gs ws (argument_to_java conversion length_at array_at new_id_is_object d arg)
    unfolding argument_to_java
    argument_to_java-Keeps d arg =
        pick ((d.type == b'i') || ((d.type == b'u') || (d.type == b'h'))) (value arg (λ w o. o)) (
          pick (d.type == b'f') (fixed_to_java-Keeps arg) (
            pick (d.type == b's')
              (pick (is_missing d arg) (throwing null_pointer-Owned) (
                checked-Keeps
                  (string_from_utf8-Keeps (if arg == 0 then none else some (length_at arg)))))
              (pick (d.type == b'n')
                (pick new_id_is_object (checked-Keeps (keeps arg)) (value arg (λ w o. o)))
                (pick (d.type == b'o')
                  (pick (is_missing d arg) (throwing null_pointer-Owned)
                    (checked-Keeps (keeps arg)))
                  (pick (d.type == b'a')
                    (jni_ptr-Owned (Call.new_direct_byte_buffer (array_at arg).0 (array_at arg).1))
                    (pick (d.type == b'?') (value 0 (λ w o. o))
                      (throwing illegal_argument-Owned)))))))

    arguments_to_java-Keeps :
        (args signature : List ℕ)
        → Keeps bs gs ws
            (arguments_to_java conversion length_at array_at new_id_is_object args signature)
    unfolding arguments_to_java
    arguments_to_java-Keeps [] signature = value [] (λ w o. o)
    arguments_to_java-Keeps (arg ∷ args) signature =
        bind (argument_to_java-Keeps (get_next_argument signature).0 arg) λ v.
          bind (arguments_to_java-Keeps args (get_next_argument signature).1)
            λ vs. value (v ∷ vs) (λ w o. o)

-- ===== src/Arguments/ToJava.antt =====
-- object.c: wl_jni_arguments_to_java. The memory behind a pointer is a parameter: `length_at` is
-- `strlen`, and `array_at` the data and the size of a `struct wl_array`.
use wayland_java.Prelude.{
  ℕ, Bool, true, ◌&&◌, ◌||◌, not, none, some, List, [], ◌∷◌, ◌==◌, if◌then◌else◌,
}
use wayland_java.Arguments.{Details, get_next_argument}
use wayland_java.Errors.{throw_null_pointer, throw_illegal_argument}
use wayland_java.Fixed.{fixed_to_java}
use wayland_java.Jni.{Call, M, pure, fail, ◌>>=◌, ◌>>◌, jni_ptr, checked}
use wayland_java.Strings.{string_from_utf8}

-- A NULL for an argument that is not nullable.
abbrev pub is_missing : Details → ℕ → Bool
is_missing d arg = not d.nullable && (arg == 0)

module _ (conversion : ℕ → M ℕ) (length_at : ℕ → ℕ) (array_at : ℕ → ℕ × ℕ)
    (new_id_is_object : Bool) where
  -- The `switch`. What it leaves as it was is 0 here.
  unfoldable pub argument_to_java : Details → ℕ → M ℕ
  unfolding fixed_to_java string_from_utf8 jni_ptr
  argument_to_java d arg =
      if (d.type == b'i') || ((d.type == b'u') || (d.type == b'h'))
      then pure arg
      else if d.type == b'f'
      then fixed_to_java arg
      else if d.type == b's'
      then (if is_missing d arg
          then (throw_null_pointer >> fail)
          else checked (string_from_utf8 (if arg == 0 then none else some (length_at arg))))
      else if d.type == b'n'
      then (if new_id_is_object then checked (conversion arg) else pure arg)
      else if d.type == b'o'
      then (if is_missing d arg then (throw_null_pointer >> fail) else checked (conversion arg))
      else if d.type == b'a'
      then jni_ptr (Call.new_direct_byte_buffer (array_at arg).0 (array_at arg).1)
      else if d.type == b'?'
      then pure 0
      else (throw_illegal_argument >> fail)

  unfoldable pub arguments_to_java : List ℕ → List ℕ → M (List ℕ)
  unfolding argument_to_java get_next_argument
  arguments_to_java [] signature = pure []
  arguments_to_java (arg ∷ args) signature = do
    v ← argument_to_java (get_next_argument signature).0 arg
    vs ← arguments_to_java args (get_next_argument signature).1
    pure (v ∷ vs)

-- No string and no object that is not nullable is NULL.
unfoldable pub is_complete : List ℕ → List ℕ → Bool
is_complete [] signature = true
is_complete (arg ∷ args) signature =
    let (d, s) = get_next_argument signature in
    let r = is_complete args s in
    not (((d.type == b's') || (d.type == b'o')) && is_missing d arg) && r

-- ===== src/Arguments/Received.antt =====
-- object.c: what wl_jni_arguments_to_java makes of the arguments of a message.
use wayland_java.Prelude.{
  ℕ, ◌≡◌, refl, inl, inr, Bool, true, ◌&&◌, ◌||◌, none, some, List, [], ◌∷◌, arith, ◌==◌,
  Bool-cases, Option-cases, length,
}
use wayland_java.Arguments.{Details, get_next_argument}
use wayland_java.Arguments.ToJava.{is_missing, argument_to_java, arguments_to_java, is_complete}
use wayland_java.Jni.{World, M}

module _ (conversion : ℕ → M ℕ) (length_at : ℕ → ℕ) (array_at : ℕ → ℕ × ℕ)
    (new_id_is_object : Bool) where
  refuses_missing :
      (d : Details) (arg : ℕ) (w : World)
      → (((d.type == b's') || (d.type == b'o')) && is_missing d arg) ≡ true
      → (argument_to_java conversion length_at array_at new_id_is_object d arg w).0 ≡ none
  unfolding argument_to_java
  refuses_missing d arg w h = ground arith

  -- When wl_jni_arguments_to_java gets to its end, it has made one Java value for each argument,
  -- and no string and no object was NULL that its signature does not mark as nullable.
  pub arguments_to_java-is_complete :
      (args signature : List ℕ) (vs : List ℕ) (w : World)
      → (arguments_to_java conversion length_at array_at new_id_is_object args signature w).0
        ≡ some vs
      → (length vs ≡ length args) × (is_complete args signature ≡ true)
  unfolding arguments_to_java is_complete
  arguments_to_java-is_complete [] signature vs w h = (ground arith, refl)
  arguments_to_java-is_complete (arg ∷ args) signature vs w h =
      let d = (get_next_argument signature).0 in
      let m = argument_to_java conversion length_at array_at new_id_is_object d arg w in
      let k =
        arguments_to_java conversion length_at array_at new_id_is_object args
          (get_next_argument signature).1 m.1 in
      let missing = ((d.type == b's') || (d.type == b'o')) && is_missing d arg in
      elim (Option-cases m.0) [
        | inl e ↦ absurd (ground arith)
        | inr (v, e) ↦ elim (Option-cases k.0) [
          | inl f ↦ absurd (ground arith)
          | inr (us, f) ↦ elim (Bool-cases missing) [
            | inl gone ↦ absurd (ground (arith, refuses_missing d arg w gone))
            | inr present ↦
                let (l, c) =
                  arguments_to_java-is_complete args (get_next_argument signature).1 us m.1 f in
                (ground (arith, h, e, f, l), ground (arith, c, present))
          ]
        ]
      ]

-- ===== src/Arguments/Ownership.antt =====
-- Who owns the blocks of a converted argument list.
use wayland_java.Prelude.{
  ℕ, ◌≡◌, refl, inl, inr, Bool, true, false, ◌&&◌, not, some, List, [], ◌∷◌, ◌==◌, if◌then◌else◌,
  Bool-cases,
}
use wayland_java.Arguments.{get_next_argument, is_owned, arguments_from_java_destroy}
use wayland_java.Jni.{World, pure, Post, Triple, bind, value, total, free}
use wayland_java.References.Bindings.{rest}
use wayland_java.References.Ownership.{Owned, plus, Holds, free-Owned}

-- What the rest of the program holds besides, once the converted arguments hold their blocks: one
-- for each string and each array that is not NULL.
abbrev pub holding : List ℕ → List ℕ → (ℕ → ℕ) → ℕ → ℕ
holding [] signature bs = bs
holding (arg ∷ args) signature bs =
    let (d, rest) = get_next_argument signature in
    let others = holding args rest bs in
    if is_owned d.type && not (arg == 0) then plus arg others else others

free_null : (p : ℕ) (w : World) → (p == 0) ≡ true → free p w ≡ (some tt, w)
unfolding free
free_null p w h = rw h refl

module _ {l : Bool} {gs ws : ℕ → ℕ} {E : World → Type 0} where
  pub free_argument :
      (b : Bool) (arg : ℕ) (bs : ℕ → ℕ)
      → Triple
          (Holds l (if b && not (arg == 0) then plus arg bs else bs) gs ws)
          (if b then free arg else pure tt)
          (λ _. Holds l bs gs ws)
          E
  free_argument false arg bs = value tt (λ w o. o)
  free_argument true arg bs = elim (Bool-cases (arg == 0)) [
    | inl null ↦ rw null (total λ w o. (tt, w, free_null arg w null, o))
    | inr other ↦ rw other (free-Owned arg)
  ]

  -- wl_jni_arguments_from_java_destroy frees every block that the converted arguments hold, each
  -- one once, and nothing else.
  pub arguments_from_java_destroy-Owned :
      (args signature : List ℕ) (bs : ℕ → ℕ)
      → Triple
          (Holds l (holding args signature bs) gs ws)
          (arguments_from_java_destroy args signature)
          (λ _. Holds l bs gs ws)
          E
  unfolding arguments_from_java_destroy
  arguments_from_java_destroy-Owned [] signature bs = value tt (λ w o. o)
  arguments_from_java_destroy-Owned (arg ∷ args) signature bs =
      let (d, rest) = get_next_argument signature in
      bind (free_argument (is_owned d.type) arg (holding args rest bs))
        λ _. arguments_from_java_destroy-Owned args rest bs

-- From an account in which the converted arguments hold their blocks,
-- wl_jni_arguments_from_java_destroy returns, has freed each of these blocks once, and has
-- released nothing else.
pub destroy-balanced :
    (args signature : List ℕ) (l : Bool) (bs gs ws : ℕ → ℕ) (w : World)
    → Owned w l (holding args signature bs) gs ws
    → Post (λ _. Holds l bs gs ws) (λ _. ⊥) (arguments_from_java_destroy args signature w)
destroy-balanced args signature l bs gs ws w o =
    (arguments_from_java_destroy-Owned args signature bs).apply w o

-- ===== src/Prelude/Lists.antt =====
-- Lists measured by native numbers, and lists of numbers as multisets: what is held, how often.
use Prim.Native.Nat.{ℕ, suc, ◌+◌, ◌<◌}
use mathlib.Core.Path.{◌≡◌}
use mathlib.Core.Bool.{Bool, true, false, ◌||◌}
use mathlib.Core.List.{List, [], ◌∷◌, ◌++◌}
use native.Mathlib.Omega.{arith}
use wayland_java.Prelude.Tests.{◌==◌, if◌then◌else◌}

module _ {ℓ} {A : Type ℓ} where
  abbrev pub length : List A → ℕ
  length [] = 0
  length (_ ∷ xs) = suc (length xs)

  pub length-append : (xs ys : List A) → length (xs ++ ys) ≡ length xs + length ys
  length-append [] ys = omega arith
  length-append (_ ∷ xs) ys = omega (arith, length-append xs ys)

-- How often a number stands in a list.
unfoldable pub count : ℕ → List ℕ → ℕ
count a [] = 0
count a (x ∷ xs) = (if a == x then 1 else 0) + count a xs

unfoldable pub has : ℕ → List ℕ → Bool
has a [] = false
has a (x ∷ xs) = (a == x) || has a xs

-- Removes the first occurrence.
unfoldable pub erase : ℕ → List ℕ → List ℕ
erase a [] = []
erase a (x ∷ xs) = if a == x then xs else x ∷ erase a xs

pub has-pos_count : (a : ℕ) (xs : List ℕ) → 0 < count a xs → has a xs ≡ true
unfolding count has
has-pos_count a [] h = absurd (omega arith)
has-pos_count a (x ∷ xs) h = ground (arith, has-pos_count a xs)

pub pos_count-has : (a : ℕ) (xs : List ℕ) → has a xs ≡ true → 0 < count a xs
unfolding count has
pos_count-has a [] h = cc
pos_count-has a (x ∷ xs) h = ground (arith, pos_count-has a xs)

pub count-erase :
    (a b : ℕ) (xs : List ℕ)
    → has b xs ≡ true
    → count a xs ≡ (if a == b then 1 else 0) + count a (erase b xs)
unfolding count has erase
count-erase a b [] h = cc
count-erase a b (x ∷ xs) h = ground (arith, count-erase a b xs)

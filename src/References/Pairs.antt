-- ===== src/References/Pairs.antt =====
-- What a list of pairs owns, and how the first pair for a pointer divides it.
use wayland_java.Prelude.{ℕ, ◌+◌, ◌≡◌, some, List, [], ◌∷◌, arith, ◌==◌, if◌then◌else◌, count}
use wayland_java.Jni.{Pair}
use wayland_java.References.{first_pair, remove_first}

unfoldable pub addresses : List Pair → List ℕ
addresses [] = []
addresses (q ∷ qs) = q.address ∷ addresses qs

unfoldable pub strong_refs : List Pair → List ℕ
strong_refs [] = []
strong_refs (q ∷ qs) = if q.is_weak then strong_refs qs else q.jobj ∷ strong_refs qs

unfoldable pub weak_refs : List Pair → List ℕ
weak_refs [] = []
weak_refs (q ∷ qs) = if q.is_weak then q.jobj ∷ weak_refs qs else weak_refs qs

module _ (a p : ℕ) where
  pub addresses-remove_first :
      (q : Pair) (qs : List Pair)
      → first_pair p qs ≡ some q
      → count a (addresses qs)
        ≡ (if a == q.address then 1 else 0) + count a (addresses (remove_first p qs))
  unfolding addresses first_pair remove_first count
  addresses-remove_first q [] h = cc
  addresses-remove_first q (r ∷ qs) h = ground (arith, addresses-remove_first q qs)

  pub strong_refs-remove_first :
      (q : Pair) (qs : List Pair)
      → first_pair p qs ≡ some q
      → count a (strong_refs qs)
        ≡ (if q.is_weak then 0 else if a == q.jobj then 1 else 0)
          + count a (strong_refs (remove_first p qs))
  unfolding strong_refs first_pair remove_first count
  strong_refs-remove_first q [] h = cc
  strong_refs-remove_first q (r ∷ qs) h = ground (arith, strong_refs-remove_first q qs)

  pub weak_refs-remove_first :
      (q : Pair) (qs : List Pair)
      → first_pair p qs ≡ some q
      → count a (weak_refs qs)
        ≡ (if q.is_weak then if a == q.jobj then 1 else 0 else 0)
          + count a (weak_refs (remove_first p qs))
  unfolding weak_refs first_pair remove_first count
  weak_refs-remove_first q [] h = cc
  weak_refs-remove_first q (r ∷ qs) h = ground (arith, weak_refs-remove_first q qs)

-- ===== src/References/Newest.antt =====
-- wl_jni_unregister_reference and wl_jni_find_reference on the stack of references of a pointer.
use wayland_java.Prelude.{
  ℕ, suc, ◌≡◌, refl, ap, ◌∙◌, inl, inr, none, some, List, [], ◌∷◌, arith, ◌==◌, if◌then◌else◌,
  Option-cases,
}
use wayland_java.Jni.{Call, Answer, done, failed, Pair, World}
use wayland_java.References.{
  first_pair, remove_first, delete_reference, unregister_reference, resolve_pair, find_reference,
}
use wayland_java.References.Bindings.{bindings, rest, bindings-first_pair, bindings-remove_first}

remove_first-absent : (p : ℕ) (qs : List Pair) → first_pair p qs ≡ none → remove_first p qs ≡ qs
unfolding first_pair remove_first
remove_first-absent p [] h = refl
remove_first-absent p (q ∷ qs) h = ground (arith, remove_first-absent p qs)

unregister_reference-pairs :
    (p : ℕ) (w : World) → (unregister_reference p w).1.pairs ≡ remove_first p w.pairs
unfolding unregister_reference delete_reference
unregister_reference-pairs p w = ground (arith, remove_first-absent p w.pairs)

-- Unregistering a pointer pops its newest reference, and leaves every other pointer's alone.
pub unregister_reference-bindings :
    (p j : ℕ) (w : World)
    → bindings j (unregister_reference p w).1.pairs
      ≡ (if j == p then rest (bindings j w.pairs) else bindings j w.pairs)
unregister_reference-bindings p j w =
    ap (bindings j) (unregister_reference-pairs p w) ∙ bindings-remove_first p j w.pairs

-- What wl_jni_find_reference returns: the local reference that the virtual machine makes of the
-- newest binding.
abbrev pub FoundNewest : ℕ → World → ℕ → Type 0
FoundNewest p w o =
    (r : ℕ) × (rs : List ℕ) × (n : ℕ) × (bindings p w.pairs ≡ r ∷ rs)
    × (w.outside (Call.ensure_local_capacity 1 ∷ w.log) (Call.local_ref r) ≡ done n)
    × (o ≡ suc n)

abbrev answered : Answer → ℕ
answered (done n) = n
answered (failed e) = 0

found_pair :
    (p o : ℕ) (w : World)
    → (find_reference p w).0 ≡ some o
    → (q : Pair) × (n : ℕ) × (first_pair p w.pairs ≡ some q)
      × (w.outside (Call.ensure_local_capacity 1 ∷ w.log) (Call.local_ref q.jobj) ≡ done n)
      × (o ≡ suc n)
unfolding find_reference resolve_pair
found_pair p o w h = elim (Option-cases (first_pair p w.pairs)) [
  | inl e ↦ absurd (ground arith)
  | inr (q, e) ↦ (
    q,
    answered (w.outside (Call.ensure_local_capacity 1 ∷ w.log) (Call.local_ref q.jobj)),
    e,
    ground arith,
    ground arith,
  )
]

-- A reference is found only as the newest binding, and then the registry is as before.
pub find_reference-newest :
    (p o : ℕ) (w : World)
    → (find_reference p w).0 ≡ some o
    → FoundNewest p w o × ((find_reference p w).1.pairs ≡ w.pairs)
unfolding find_reference resolve_pair
find_reference-newest p o w h =
    let (q, n, e, a, k) = found_pair p o w h in
    (
      (
        q.jobj,
        bindings p (remove_first p w.pairs),
        n,
        ground (arith, bindings-first_pair p w.pairs),
        a,
        k,
      ),
      ground arith,
    )

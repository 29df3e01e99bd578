-- ===== src/References/Bindings.antt =====
-- What the registry means: for each native pointer a stack of references, newest first.
use wayland_java.Prelude.{
  ℕ, ◌≡◌, refl, ap, ◌∙◌, true, false, Option, none, some, List, [], ◌∷◌, arith, ◌==◌, if◌then◌else◌,
}
use wayland_java.Errors.{throw_out_of_memory, throw_null_pointer}
use wayland_java.Errors.Mutex.{throw_out_of_memory-Frame, throw_null_pointer-Frame}
use wayland_java.Jni.{
  Call, Pair, World, M, jni, Post, returns, leaves, Triple, bind, cleanup, value, leave, allocate,
  free, new_global_ref, new_weak_global_ref, call_ptr,
}
use wayland_java.References.{
  first_pair, remove_first, insert_pair, add_strong_pair, local_or_throw, register_reference,
  register_weak_reference,
}
use wayland_java.References.Ownership.{call_ptr-Frame, jni-Frame}

unfoldable pub bindings : ℕ → List Pair → List ℕ
bindings p [] = []
bindings p (q ∷ qs) = if q.ptr == p then q.jobj ∷ bindings p qs else bindings p qs

unfoldable pub rest : List ℕ → List ℕ
rest [] = []
rest (_ ∷ xs) = xs

-- The search stops at the newest binding.
pub bindings-first_pair :
    (p : ℕ) (qs : List Pair)
    → bindings p qs
      ≡ elim (first_pair p qs) [ none ↦ [] | some q ↦ q.jobj ∷ bindings p (remove_first p qs) ]
unfolding bindings first_pair remove_first
bindings-first_pair p [] = refl
bindings-first_pair p (q ∷ qs) = ground (arith, bindings-first_pair p qs)

pub bindings-remove_first :
    (p j : ℕ) (qs : List Pair)
    → bindings j (remove_first p qs) ≡ (if j == p then rest (bindings j qs) else bindings j qs)
unfolding bindings rest remove_first
bindings-remove_first p j [] = ground arith
bindings-remove_first p j (q ∷ qs) = ground (arith, bindings-remove_first p j qs)

-- The list of pairs, with the mutex free.
pub record Listed (w : World) (qs : List Pair) : Type 0 where
  pub same : w.pairs ≡ qs
  pub mutex : w.locked ≡ false

abbrev pub Lists : List Pair → World → Type 0
Lists qs w = Listed w qs

module _ {qs : List Pair} where
  keeps_list :
      {A : Type 0} {m : M A}
      → ((w : World) → w.locked ≡ false → ((m w).1.pairs ≡ w.pairs) × ((m w).1.locked ≡ w.locked))
      → Triple (Lists qs) m (λ _. Lists qs) (Lists qs)
  keeps_list {A} {m} k = record {
    apply = λ w o.
        go (m w) (record { same = (k w o.mutex).0 ∙ o.same; mutex = (k w o.mutex).1 ∙ o.mutex });
  }
    where
      go : (r : Option A × World) → Lists qs r.1 → Post (λ _. Lists qs) (Lists qs) r
      go (none, w') p = leaves p
      go (some a, w') p = returns p

  jni-Lists : (c : Call) → Triple (Lists qs) (jni c) (λ _. Lists qs) (Lists qs)
  jni-Lists c = keeps_list λ w h. let f = jni-Frame c w in (f.pairs, f.locked)

  call_ptr-Lists : (c : Call) → Triple (Lists qs) (call_ptr c) (λ _. Lists qs) (Lists qs)
  call_ptr-Lists c = keeps_list λ w h. let f = call_ptr-Frame c w in (f.pairs, f.locked)

  allocate-Lists : Triple (Lists qs) allocate (λ _. Lists qs) (Lists qs)
  unfolding allocate
  allocate-Lists = keeps_list λ w h. ground arith

  free-Lists : (p : ℕ) → Triple (Lists qs) (free p) (λ _. Lists qs) (Lists qs)
  unfolding free
  free-Lists p = keeps_list λ w h. ground arith

  new_global_ref-Lists : (o : ℕ) → Triple (Lists qs) (new_global_ref o) (λ _. Lists qs) (Lists qs)
  unfolding new_global_ref
  new_global_ref-Lists o = keeps_list λ w h. ground arith

  new_weak_global_ref-Lists :
      (o : ℕ) → Triple (Lists qs) (new_weak_global_ref o) (λ _. Lists qs) (Lists qs)
  unfolding new_weak_global_ref
  new_weak_global_ref-Lists o = keeps_list λ w h. ground arith

  no_memory-Lists : Triple (Lists qs) throw_out_of_memory (λ _. Lists qs) (Lists qs)
  no_memory-Lists = keeps_list λ w h. let f = throw_out_of_memory-Frame w h in (f.pairs, f.locked)

  null_pointer-Lists : Triple (Lists qs) throw_null_pointer (λ _. Lists qs) (Lists qs)
  null_pointer-Lists = keeps_list λ w h. let f = throw_null_pointer-Frame w h in (f.pairs, f.locked)

  insert_pair-Lists :
      (q : Pair) → Triple (Lists qs) (insert_pair q) (λ _. Lists (q ∷ qs)) (Lists qs)
  unfolding insert_pair
  insert_pair-Lists q = record {
    apply = λ w o. returns (record { same = ap (λ l. q ∷ l) o.same; mutex = refl });
  }

-- What registering `r` for `p` has done to every pointer's stack.
abbrev pub Pushed : ℕ → List Pair → ℕ → World → Type 0
Pushed p qs r w =
    (j : ℕ) → bindings j w.pairs ≡ (if j == p then r ∷ bindings j qs else bindings j qs)

module _ (p obj : ℕ) (qs : List Pair) where
  Listed-Pushed : (q : Pair) → q.ptr ≡ p → (w : World) → Listed w (q ∷ qs) → Pushed p qs q.jobj w
  unfolding bindings
  Listed-Pushed q e w o j = ap (bindings j) o.same ∙ ground arith

  add_strong_pair-Pushed :
      (l : ℕ) → Triple (Lists qs) (add_strong_pair p l) (Pushed p qs) (Lists qs)
  unfolding add_strong_pair
  add_strong_pair-Pushed l =
      bind (cleanup allocate-Lists (bind no_memory-Lists λ _. leave (λ w o. o))) λ a.
        bind
          (cleanup (new_global_ref-Lists l)
            (bind no_memory-Lists λ _. bind (free-Lists a) λ _. leave (λ w o. o)))
          λ g.
            let q : Pair = record { address = a; ptr = p; jobj = g; is_weak = false } in
            bind (insert_pair-Lists q) λ _. value g (Listed-Pushed q refl)

  pub register_reference-Pushed :
      Triple (Lists qs) (register_reference p obj) (Pushed p qs) (Lists qs)
  unfolding register_reference local_or_throw
  register_reference-Pushed = bind (jni-Lists (Call.ensure_local_capacity 1)) λ _.
      bind
        (cleanup (call_ptr-Lists (Call.local_ref obj))
          (bind null_pointer-Lists λ _. leave (λ w o. o)))
        λ l. add_strong_pair-Pushed l

  pub register_weak_reference-Pushed :
      Triple (Lists qs) (register_weak_reference p obj) (Pushed p qs) (Lists qs)
  unfolding register_weak_reference
  register_weak_reference-Pushed =
      bind (cleanup allocate-Lists (bind no_memory-Lists λ _. leave (λ w o. o))) λ a.
        bind (cleanup (new_weak_global_ref-Lists obj) (bind (free-Lists a) λ _. leave (λ w o. o)))
          λ g.
            let q : Pair = record { address = a; ptr = p; jobj = g; is_weak = true } in
            bind (insert_pair-Lists q) λ _. value g (Listed-Pushed q refl)

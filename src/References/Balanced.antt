-- ===== src/References/Balanced.antt =====
-- The functions of the registry (wayland-jni.c) from any world whose account is in order.
use wayland_java.Prelude.{ℕ, suc, ◌≡◌, refl, ◌∙◌, false, Option, none, some, List, ◌∷◌, arith}
use wayland_java.Jni.{Call, done, Pair, World, Post, returns, leaves}
use wayland_java.References.{
  register_reference, register_weak_reference, unregister_reference, find_reference,
}
use wayland_java.References.Bindings.{
  bindings, rest, Listed, Lists, Pushed, register_reference-Pushed, register_weak_reference-Pushed,
}
use wayland_java.References.Newest.{unregister_reference-bindings, find_reference-newest}
use wayland_java.References.Ownership.{Owned}
use wayland_java.References.Registry.{
  register_reference-Account, register_weak_reference-Account, unregister_reference-Account,
  find_reference-Account,
}

-- A function whose every end is in the same state.
pub settled : {A : Type 0} {Q : World → Type 0} (r : Option A × World) → Post (λ _. Q) Q r → Q r.1
settled (some a, w) (returns q) = q
settled (none, w) (leaves q) = q

module _ (bs gs ws : ℕ → ℕ) (w : World) (o : Owned w false bs gs ws) where
  -- From a balanced account and a free mutex, registering a reference, strong or weak, whether it
  -- succeeds or fails, ends with the account balanced and the mutex free: a new pair owns one
  -- block and one reference of its kind, and what a failure took is given back.
  pub register-balanced :
      (p obj : ℕ)
      → Owned (register_reference p obj w).1 false bs gs ws
        × Owned (register_weak_reference p obj w).1 false bs gs ws
  register-balanced p obj = (
    settled (register_reference p obj w) ((register_reference-Account bs gs ws p obj).apply w o),
    settled (register_weak_reference p obj w)
        ((register_weak_reference-Account bs gs ws p obj).apply w o),
  )

  -- From a balanced account and a free mutex, unregistering a pointer, registered or not, ends
  -- with the account balanced and the mutex free.
  pub unregister-balanced : (p : ℕ) → Owned (unregister_reference p w).1 false bs gs ws
  unregister-balanced p =
      settled (unregister_reference p w) ((unregister_reference-Account bs gs ws p).apply w o)

  -- From a balanced account and a free mutex, looking a pointer up ends with the account balanced
  -- and the mutex free, also where the object is gone and its pair is deleted.
  pub find-balanced : (p : ℕ) → Owned (find_reference p w).1 false bs gs ws
  find-balanced p = settled (find_reference p w) ((find_reference-Account bs gs ws p).apply w o)

-- With the mutex free, registering a reference that succeeds puts what it returns on top of the
-- stack of its pointer and leaves every other pointer's alone; one that fails changes no pair.
pub register-pushes :
    (p obj : ℕ) (w : World)
    → w.locked ≡ false
    → Post (Pushed p w.pairs) (Lists w.pairs) (register_reference p obj w)
      × Post (Pushed p w.pairs) (Lists w.pairs) (register_weak_reference p obj w)
register-pushes p obj w h =
    let l : Listed w w.pairs = record { same = refl; mutex = h } in
    (
      (register_reference-Pushed p obj w.pairs).apply w l,
      (register_weak_reference-Pushed p obj w.pairs).apply w l,
    )

-- A registration that succeeded, as a fact about the world behind it.
pushed :
    (p r : ℕ) (qs : List Pair) (x : Option ℕ × World)
    → Post (Pushed p qs) (Lists qs) x
    → x.0 ≡ some r
    → Pushed p qs r x.1
pushed p r qs (some s, w) (returns q) h j = ground (arith, q j)
pushed p r qs (none, w) (leaves q) h j = absurd (ground arith)

-- With the mutex free, a registration that succeeds is undone by unregistering the same pointer:
-- every pointer has the stack of references that it had.
pub register-unregister :
    (p obj r j : ℕ) (w : World)
    → w.locked ≡ false
    → (register_reference p obj w).0 ≡ some r
    → bindings j (unregister_reference p (register_reference p obj w).1).1.pairs
      ≡ bindings j w.pairs
unfolding rest
register-unregister p obj r j w h e =
    let q = pushed p r w.pairs (register_reference p obj w) (register-pushes p obj w h).0 e j in
    unregister_reference-bindings p j (register_reference p obj w).1 ∙ ground arith

-- With the mutex free, when a registration has succeeded, what a search for the pointer finds is
-- the local reference that the virtual machine makes of the reference just registered.
pub register-find :
    (p obj r o : ℕ) (w : World)
    → w.locked ≡ false
    → (register_reference p obj w).0 ≡ some r
    → (find_reference p (register_reference p obj w).1).0 ≡ some o
    → let u = (register_reference p obj w).1 in
      (n : ℕ) × (u.outside (Call.ensure_local_capacity 1 ∷ u.log) (Call.local_ref r) ≡ done n)
      × (o ≡ suc n)
register-find p obj r o w h e f =
    let q = pushed p r w.pairs (register_reference p obj w) (register-pushes p obj w h).0 e p in
    let ((s, rs, n, b, a, k), _) = find_reference-newest p o (register_reference p obj w).1 f in
    let t : r ≡ s = ground arith in (n, rw t a, k)

-- ===== src/Jni/Triples.antt =====
-- Triples over native functions: from a world that satisfies `P`, the function ends in `Q` of its
-- result where it returns one, and in `E` where it returns early.
use wayland_java.Prelude.{◌≡◌, sym, subst, Option, none, some}
use wayland_java.Jni.State.{World, M, pure, fail, or_else, attempt, ◌>>=◌}

pub data Post {A : Type 0} (Q : A → World → Type 0) (E : World → Type 0)
    : Option A × World → Type 0 where
  returns : {a : A} {w : World} → Q a w → Post Q E (some a, w)
  leaves : {w : World} → E w → Post Q E (none, w)

pub record Triple {A : Type 0} (P : World → Type 0) (m : M A) (Q : A → World → Type 0)
    (E : World → Type 0) : Type 0 where
  pub apply : (w : World) → P w → Post Q E (m w)

module _ {A : Type 0} {P E : World → Type 0} where
  -- An early return of the first part is one of the whole.
  pub bind :
      {B : Type 0} {Q : A → World → Type 0} {R : B → World → Type 0} {m : M A} {f : A → M B}
      → Triple P m Q E
      → ((a : A) → Triple (Q a) (f a) R E)
      → Triple P (m >>= f) R E
  bind {B} {Q} {R} {m} {f} tm tf = record { apply = λ w p. go (m w) (tm.apply w p) }
    where
      go :
          (r : Option A × World)
          → Post Q E r
          → Post R E (
              let (o, w') = r in
              let q : Option B × World = elim o [ none ↦ (none, w') | some a ↦ f a w' ] in q)
      go (some a, w') (returns q) = (tf a).apply w' q
      go (none, w') (leaves e) = leaves e

  -- A cleanup starts where the first part left early.
  pub cleanup :
      {Q : A → World → Type 0} {C : World → Type 0} {m h : M A}
      → Triple P m Q C
      → Triple C h Q E
      → Triple P (or_else m h) Q E
  cleanup {Q} {C} {m} {h} tm th = record { apply = λ w p. go (m w) (tm.apply w p) }
    where
      go :
          (r : Option A × World)
          → Post Q C r
          → Post Q E (
              let (o, w') = r in
              let q : Option A × World = elim o [ none ↦ h w' | some a ↦ (some a, w') ] in q)
      go (some a, w') (returns q) = returns q
      go (none, w') (leaves c) = th.apply w' c

  pub value : {Q : A → World → Type 0} (a : A) → ((w : World) → P w → Q a w) → Triple P (pure a) Q E
  value a k = record { apply = λ w p. returns (k w p) }

  pub leave : {Q : A → World → Type 0} → ((w : World) → P w → E w) → Triple P (fail {A = A}) Q E
  leave k = record { apply = λ w p. leaves (k w p) }

  -- A function that never returns early.
  pub total :
      {Q : A → World → Type 0} {m : M A}
      → ((w : World) → P w → (a : A) × (w' : World) × (m w ≡ (some a, w')) × Q a w')
      → Triple P m Q E
  total {Q} {m} k = record {
    apply = λ w p. let (a, w', e, q) = k w p in subst (λ r. Post Q E r) (sym e) (returns q);
  }

  -- A caller that tests the result.
  pub attempted :
      {Q : Option A → World → Type 0} {m : M A}
      → Triple P m (λ a. Q (some a)) (Q none)
      → Triple P (attempt m) Q E
  attempted {Q} {m} tm = record { apply = λ w p. go (m w) (tm.apply w p) }
    where
      go :
          (r : Option A × World)
          → Post (λ a. Q (some a)) (Q none) r
          → Post Q E (let (o, w') = r in let q : Option (Option A) × World = (some o, w') in q)
      go (some a, w') (returns q) = returns q
      go (none, w') (leaves e) = returns e

  pub weaken :
      {P' E' : World → Type 0} {Q Q' : A → World → Type 0} {m : M A}
      → ((w : World) → P' w → P w)
      → ((a : A) (w : World) → Q a w → Q' a w)
      → ((w : World) → E w → E' w)
      → Triple P m Q E
      → Triple P' m Q' E'
  weaken {E'} {Q} {Q'} {m} kp kq ke tm = record { apply = λ w p. go (m w) (tm.apply w (kp w p)) }
    where
      go : (r : Option A × World) → Post Q E r → Post Q' E' r
      go (some a, w') (returns q) = returns (kq a w' q)
      go (none, w') (leaves e) = leaves (ke w' e)

  -- Two triples of one function.
  pub both :
      {P' E' : World → Type 0} {Q Q' : A → World → Type 0} {m : M A}
      → Triple P m Q E
      → Triple P' m Q' E'
      → Triple (λ w. P w × P' w) m (λ a w. Q a w × Q' a w) (λ w. E w × E' w)
  both {P'} {E'} {Q} {Q'} {m} t u = record {
    apply = λ w p. go (m w) (t.apply w p.0) (u.apply w p.1);
  }
    where
      go :
          (r : Option A × World)
          → Post Q E r
          → Post Q' E' r
          → Post (λ a w. Q a w × Q' a w) (λ w. E w × E' w) r
      go (some a, w') (returns q) (returns q') = returns (q, q')
      go (none, w') (leaves e) (leaves e') = leaves (e, e')

-- A fact that does not speak of the world.
pub given :
    {A X : Type 0} {P E : World → Type 0} {Q : A → World → Type 0} {m : M A}
    → (X → Triple P m Q E)
    → Triple (λ w. P w × X) m Q E
given k = record { apply = λ w (p, x). (k x).apply w p }

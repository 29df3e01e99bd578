-- ===== src/Errors/Caught.antt =====
-- What a function does whatever the outside answers: the last call that it made, and the parts whose
-- failures its caller catches.
use wayland_java.Prelude.{ℕ, String, ◌≡◌, refl, Option, none, some, List, ◌∷◌}
use wayland_java.Errors.Quiet.{Anything}
use wayland_java.Jni.{
  Call, Answer, done, failed, World, M, attempt, gets, record_call, ask, Post, returns, leaves,
  Triple, bind, cleanup, value, wayland_call, or_null,
}

-- The last call.
abbrev pub IsLast : Call → World → Type 0
IsLast c w = (before : List Call) × (w.log ≡ c ∷ before)

module _ {E : World → Type 0} where
  pub asked : (c : Call) → Triple Anything (ask c) (λ _. IsLast c) E
  unfolding ask
  asked c = record { apply = λ w _. go w (w.outside w.log c) }
    where
      go :
          (w : World) (r : Answer)
          → Post {A = ℕ}
              (λ _. IsLast c)
              E
              (elim r [ done n ↦ (some n, record_call w c) | failed e ↦ (some 0, record_call w c) ])
      go w (done n) = returns (w.log, refl)
      go w (failed e) = returns (w.log, refl)

  pub posts :
      (name : String) (arguments : List ℕ)
      → Triple Anything (wayland_call name arguments) (λ _. IsLast (Call.wayland name arguments)) E
  unfolding wayland_call
  posts name arguments = bind (asked (Call.wayland name arguments)) λ n. value tt (λ w h. h)

  -- Any first part, whose failure is caught.
  pub caught : {A : Type 0} (m : M A) → Triple Anything (attempt m) (λ _. Anything) E
  caught m = record { apply = λ w _. returns tt }

  pub or_null_caught : (m : M ℕ) → Triple Anything (or_null m) (λ _. Anything) E
  or_null_caught m = cleanup (forgotten m) (value 0 (λ w p. tt))
    where
      forgotten : (m : M ℕ) → Triple Anything m (λ _. Anything) Anything
      forgotten m = record { apply = λ w _. go (m w) }
        where
          go : (r : Option ℕ × World) → Post (λ _. Anything) Anything r
          go (some a, w) = returns tt
          go (none, w) = leaves tt

  pub gets_any : {A : Type 0} (f : World → A) → Triple Anything (gets f) (λ _. Anything) E
  gets_any f = record { apply = λ w _. returns tt }

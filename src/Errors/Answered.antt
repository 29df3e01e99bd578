-- ===== src/Errors/Answered.antt =====
-- The last call that a function made, together with the answer that it got from the outside.
use wayland_java.Prelude.{ℕ, suc, String, ◌≡◌, refl, none, some, List, ◌∷◌}
use wayland_java.Errors.Quiet.{Anything}
use wayland_java.Jni.{
  Call, Answer, done, failed, thrown, World, M, record_call, sys, jni, Post, returns, leaves,
  Triple, bind, value, weaken, both, jni_ptr, wayland_ptr,
}

abbrev pub Answers : Call → ℕ → World → Type 0
Answers c n w = (past : List Call) × (w.log ≡ c ∷ past) × (w.outside past c ≡ done n)

-- The pointer that the last call returned.
abbrev pub Pointer : Call → ℕ → World → Type 0
Pointer c p w = (n : ℕ) × Answers c n w × (p ≡ suc n)

-- `c` was the last call, and failed.
abbrev pub Refused : Call → World → Type 0
Refused c w = (past : List Call) × (e : ℕ) × (w.log ≡ c ∷ past) × (w.outside past c ≡ failed e)

jni_answered : (c : Call) → Triple Anything (jni c) (Answers c) (Refused c)
unfolding jni
jni_answered c = record { apply = λ w _. go w (w.outside w.log c) refl }
  where
    go :
        (w : World) (r : Answer)
        → w.outside w.log c ≡ r
        → Post {A = ℕ} (Answers c) (Refused c) (elim r [
          | done n ↦ (some n, record_call w c)
          | failed e ↦ (none, record w { log = c ∷ w.log; pending = some (thrown e) })
        ])
    go w (done n) h = returns (w.log, refl, h)
    go w (failed e) h = leaves (w.log, e, refl, h)

pub jni_ptr_answered : (c : Call) → Triple Anything (jni_ptr c) (Pointer c) (Refused c)
unfolding jni_ptr
jni_ptr_answered c = bind (jni_answered c) λ n. value (suc n) (λ w h. (n, h, refl))

pub sys_answered : (c : Call) → Triple Anything (sys c) (Answers c) (Refused c)
unfolding sys
sys_answered c = record { apply = λ w _. go w (w.outside w.log c) refl }
  where
    go :
        (w : World) (r : Answer)
        → w.outside w.log c ≡ r
        → Post {A = ℕ} (Answers c) (Refused c) (elim r [
          | done n ↦ (some n, record_call w c)
          | failed e ↦ (none, record w { log = c ∷ w.log; errno = e })
        ])
    go w (done n) h = returns (w.log, refl, h)
    go w (failed e) h = leaves (w.log, e, refl, h)

pub wayland_ptr_answered :
    (name : String) (arguments : List ℕ)
    → Triple Anything
        (wayland_ptr name arguments)
        (Pointer (Call.wayland name arguments))
        (Refused (Call.wayland name arguments))
unfolding wayland_ptr
wayland_ptr_answered name arguments =
    bind (sys_answered (Call.wayland name arguments)) λ n. value (suc n) (λ w h. (n, h, refl))

-- What holds whatever was before, beside what holds of the account.
pub beside :
    {A : Type 0} {P E F : World → Type 0} {Q R : A → World → Type 0} {m : M A}
    → Triple P m Q E
    → Triple Anything m R F
    → Triple P m (λ a w. Q a w × R a w) E
beside t u = weaken (λ w p. (p, tt)) (λ a w q. q) (λ w e. e.0) (both t u)

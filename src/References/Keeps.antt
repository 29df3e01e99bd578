-- ===== src/References/Keeps.antt =====
-- The functions that end with the account as it was, on every path, and the rules to prove it.
use wayland_java.Prelude.{
  ℕ, suc, String, refl, Bool, true, false, some, List, ◌∷◌, arith, if◌then◌else◌,
}
use wayland_java.Jni.{
  Call, Answer, done, failed, World, M, pure, fail, attempt, ◌>>◌, update, ask, Post, returns,
  Triple, bind, cleanup, value, leave, total, attempted, return_if_pending, set_static,
  get_long_field, set_long_field, new_local_ref, wayland_ptr, wayland_call, wayland_int,
  wayland_get, or_null, checked, clear_exception,
}
use wayland_java.References.Ownership.{
  Holds, framed, call-Owned, jni-Owned, gets-Owned, framed_total,
}
use wayland_java.References.Registry.{Account}

abbrev pub Keeps : (bs gs ws : ℕ → ℕ) {A : Type 0} → M A → Type 0
Keeps bs gs ws m = Triple (Account bs gs ws) m (λ _. Account bs gs ws) (Account bs gs ws)

module _ {bs gs ws : ℕ → ℕ} where
  pub done-Keeps : {A : Type 0} (a : A) → Keeps bs gs ws (pure a)
  done-Keeps a = value a (λ w o. o)

  pub fail-Keeps : {A : Type 0} → Keeps bs gs ws (fail {A = A})
  fail-Keeps = leave (λ w o. o)

  pub throwing :
      {A : Type 0} {m : M (Unit {0})}
      → Triple (Account bs gs ws) m (λ _. Account bs gs ws) (Account bs gs ws)
      → Keeps bs gs ws {A = A} (m >> fail)
  throwing t = bind t λ _. leave (λ w o. o)

  pub pick :
      {A : Type 0} (b : Bool) {m n : M A}
      → Keeps bs gs ws m
      → Keeps bs gs ws n
      → Keeps bs gs ws (if b then m else n)
  pick true t u = t
  pick false t u = u

  pub or_null-Keeps : {m : M ℕ} → Keeps bs gs ws m → Keeps bs gs ws (or_null m)
  or_null-Keeps t = cleanup t (value 0 (λ w o. o))

  pub attempt-Keeps : {A : Type 0} {m : M A} → Keeps bs gs ws m → Keeps bs gs ws (attempt m)
  attempt-Keeps t = attempted t

  pub test_pending : Keeps bs gs ws return_if_pending
  test_pending = framed λ w _. ground arith

  pub checked-Keeps : {m : M ℕ} → Keeps bs gs ws m → Keeps bs gs ws (checked m)
  checked-Keeps t = bind (or_null-Keeps t) λ v. bind test_pending λ _. value v (λ w o. o)

  pub clear_exception-Keeps : Keeps bs gs ws clear_exception
  clear_exception-Keeps = framed λ w _. ground arith

  pub set_static-Keeps : (member : String) (v : ℕ) → Keeps bs gs ws (set_static member v)
  set_static-Keeps member v = framed λ w _. ground arith

module _ {bs gs ws : ℕ → ℕ} {l : Bool} where
  pub wayland_ptr-Owned :
      (n : String) (a : List ℕ)
      → Triple (Holds l bs gs ws) (wayland_ptr n a) (λ _. Holds l bs gs ws) (Holds l bs gs ws)
  unfolding wayland_ptr
  wayland_ptr-Owned n a = framed λ w _. ground arith

  pub wayland_int-Owned :
      (n : String) (a : List ℕ)
      → Triple (Holds l bs gs ws) (wayland_int n a) (λ _. Holds l bs gs ws) (Holds l bs gs ws)
  unfolding wayland_int
  wayland_int-Owned n a = framed λ w _. ground arith

  pub get_long_field-Owned :
      (obj : ℕ)
      → Triple (Holds l bs gs ws) (get_long_field obj) (λ _. Holds l bs gs ws) (Holds l bs gs ws)
  unfolding get_long_field
  get_long_field-Owned obj = gets-Owned (λ w. w.long_field (w.target obj))

  -- What touches neither blocks nor references, but a field or an object's reference.
  pub set_long_field-Owned :
      (obj v : ℕ)
      → Triple (Holds l bs gs ws) (set_long_field obj v) (λ _. Holds l bs gs ws) (Holds l bs gs ws)
  unfolding set_long_field
  set_long_field-Owned obj v = bind (jni-Owned (Call.put_long_field obj v)) λ _. total λ w o. (
    tt,
    record w { long_field = update w.long_field (w.target obj) v },
    refl,
    record {
      blocks = o.blocks;
      globals = o.globals;
      weaks = o.weaks;
      solid = o.solid;
      safe = o.safe;
      mutex = o.mutex;
    },
  )

  pub new_local_ref-Owned :
      (obj : ℕ)
      → Triple (Holds l bs gs ws) (new_local_ref obj) (λ _. Holds l bs gs ws) (Holds l bs gs ws)
  unfolding new_local_ref
  new_local_ref-Owned obj = bind (call-Owned (Call.local_ref obj)) λ n. total λ w o. (
    suc n,
    record w { target = update w.target (suc n) (w.target obj) },
    refl,
    record {
      blocks = o.blocks;
      globals = o.globals;
      weaks = o.weaks;
      solid = o.solid;
      safe = o.safe;
      mutex = o.mutex;
    },
  )

module _ {bs gs ws : ℕ → ℕ} {l : Bool} {E : World → Type 0} where
  -- These never return early.
  pub wayland_call-Owned :
      (n : String) (a : List ℕ)
      → Triple (Holds l bs gs ws) (wayland_call n a) (λ _. Holds l bs gs ws) E
  unfolding wayland_call
  wayland_call-Owned n a = framed_total (λ w _. ground arith) (λ w. ground arith)

  pub asked-Owned : (c : Call) → Triple (Holds l bs gs ws) (ask c) (λ _. Holds l bs gs ws) E
  unfolding ask
  asked-Owned c = record { apply = λ w o. go w o (w.outside w.log c) }
    where
      logged : (w : World) → Holds l bs gs ws w → Holds l bs gs ws (record w { log = c ∷ w.log })
      logged w o = record {
        blocks = o.blocks;
        globals = o.globals;
        weaks = o.weaks;
        solid = o.solid;
        safe = o.safe;
        mutex = o.mutex;
      }

      go :
          (w : World)
          → Holds l bs gs ws w
          → (r : Answer)
          → Post {A = ℕ}
              (λ _. Holds l bs gs ws)
              E
              (elim r [
                | done n ↦ (some n, record w { log = c ∷ w.log })
                | failed e ↦ (some 0, record w { log = c ∷ w.log })
              ])
      go w o (done n) = returns (logged w o)
      go w o (failed e) = returns (logged w o)

  pub wayland_get-Owned :
      (n : String) (a : List ℕ)
      → Triple (Holds l bs gs ws) (wayland_get n a) (λ _. Holds l bs gs ws) E
  unfolding wayland_get
  wayland_get-Owned n a = asked-Owned (Call.wayland n a)

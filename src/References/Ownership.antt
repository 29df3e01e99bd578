-- ===== src/References/Ownership.antt =====
-- The account of blocks and references: what is live is what the pairs of the registry own and
-- what the rest of the program holds. Each primitive with its effect on the account.
use wayland_java.Prelude.{
  ℕ, suc, ◌+◌, ◌≡◌, refl, Bool, false, Option, none, some, ◌∷◌, arith, ◌==◌, if◌then◌else◌, count,
  erase, has-pos_count, count-erase,
}
use wayland_java.Jni.{
  Call, World, M, gets, update, call, ask, jni, Frame, Post, returns, leaves, Triple, bind, total,
  allocate, free, new_global_ref, new_weak_global_ref, delete_global_ref, call_ptr, jni_ptr,
}
use wayland_java.References.Pairs.{addresses, strong_refs, weak_refs}

-- `bs`, `gs` and `ws` say how often the rest of the program holds each block, global and weak
-- reference; `l` is the state of the mutex. Nothing has gone wrong so far.
pub record Owned (w : World) (l : Bool) (bs gs ws : ℕ → ℕ) : Type 0 where
  pub blocks : (a : ℕ) → count a w.blocks ≡ count a (addresses w.pairs) + bs a
  pub globals : (a : ℕ) → count a w.globals ≡ count a (strong_refs w.pairs) + gs a
  pub weaks : (a : ℕ) → count a w.weaks ≡ count a (weak_refs w.pairs) + ws a
  pub solid : count 0 w.blocks ≡ 0
  pub safe : w.fault ≡ false
  pub mutex : w.locked ≡ l

-- One more of `p`.
abbrev pub plus : ℕ → (ℕ → ℕ) → ℕ → ℕ
plus p f a = (if a == p then 1 else 0) + f a

module _ {l : Bool} {bs gs ws : ℕ → ℕ} where
  pub Owned-Frame : (w : World) {w' : World} → Frame w w' → Owned w l bs gs ws → Owned w' l bs gs ws
  Owned-Frame w f o = record {
    blocks = λ a. ground (arith, o.blocks a);
    globals = λ a. ground (arith, o.globals a);
    weaks = λ a. ground (arith, o.weaks a);
    solid = ground arith;
    safe = ground arith;
    mutex = ground arith;
  }

module _ (l : Bool) (bs gs ws : ℕ → ℕ) where
  abbrev pub Holds : World → Type 0
  Holds w = Owned w l bs gs ws

pub call-Frame : (c : Call) (w : World) → Frame w (call c w).1
unfolding call
call-Frame c w = ground arith

pub call_ptr-Frame : (c : Call) (w : World) → Frame w (call_ptr c w).1
unfolding call_ptr
call_ptr-Frame c w = ground arith

pub ask-Frame : (c : Call) (w : World) → Frame w (ask c w).1
unfolding ask
ask-Frame c w = ground arith

pub jni-Frame : (c : Call) (w : World) → Frame w (jni c w).1
unfolding jni
jni-Frame c w = ground arith

pub jni_ptr-Frame : (c : Call) (w : World) → Frame w (jni_ptr c w).1
unfolding jni_ptr
jni_ptr-Frame c w = ground arith

module _ {l : Bool} {bs gs ws : ℕ → ℕ} where
  -- What leaves the frame alone leaves the account alone.
  pub framed :
      {A : Type 0} {m : M A}
      → ((w : World) → w.locked ≡ l → Frame w (m w).1)
      → Triple (Holds l bs gs ws) m (λ _. Holds l bs gs ws) (Holds l bs gs ws)
  framed {A} {m} k = record { apply = λ w o. go (m w) (Owned-Frame w (k w o.mutex) o) }
    where
      go :
          (r : Option A × World)
          → Holds l bs gs ws r.1
          → Post (λ _. Holds l bs gs ws) (Holds l bs gs ws) r
      go (none, w') p = leaves p
      go (some a, w') p = returns p

  pub call-Owned :
      (c : Call) → Triple (Holds l bs gs ws) (call c) (λ _. Holds l bs gs ws) (Holds l bs gs ws)
  call-Owned c = framed λ w _. call-Frame c w

  pub call_ptr-Owned :
      (c : Call) → Triple (Holds l bs gs ws) (call_ptr c) (λ _. Holds l bs gs ws) (Holds l bs gs ws)
  call_ptr-Owned c = framed λ w _. call_ptr-Frame c w

  pub jni-Owned :
      (c : Call) → Triple (Holds l bs gs ws) (jni c) (λ _. Holds l bs gs ws) (Holds l bs gs ws)
  jni-Owned c = framed λ w _. jni-Frame c w

  pub jni_ptr-Owned :
      (c : Call) → Triple (Holds l bs gs ws) (jni_ptr c) (λ _. Holds l bs gs ws) (Holds l bs gs ws)
  jni_ptr-Owned c = framed λ w _. jni_ptr-Frame c w

  pub ask-Owned :
      (c : Call) → Triple (Holds l bs gs ws) (ask c) (λ _. Holds l bs gs ws) (Holds l bs gs ws)
  ask-Owned c = framed λ w _. ask-Frame c w

  pub gets-Owned :
      {A : Type 0} (f : World → A)
      → Triple (Holds l bs gs ws) (gets f) (λ _. Holds l bs gs ws) (Holds l bs gs ws)
  gets-Owned f = record { apply = λ w o. returns o }

  pub allocate-Owned :
      Triple (Holds l bs gs ws) allocate (λ p. Holds l (plus p bs) gs ws) (Holds l bs gs ws)
  unfolding allocate count
  allocate-Owned = bind (call-Owned Call.malloc) λ n. total λ w o. (
    suc n,
    record w { blocks = suc n ∷ w.blocks },
    refl,
    record {
      blocks = λ a. ground (arith, o.blocks a);
      globals = o.globals;
      weaks = o.weaks;
      solid = ground (arith, o.solid);
      safe = o.safe;
      mutex = o.mutex;
    },
  )

  pub new_global_ref-Owned :
      (obj : ℕ)
      → Triple
          (Holds l bs gs ws)
          (new_global_ref obj)
          (λ r. Holds l bs (plus r gs) ws)
          (Holds l bs gs ws)
  unfolding new_global_ref count
  new_global_ref-Owned obj = bind (call-Owned (Call.global_ref obj)) λ n. total λ w o. (
    suc n,
    record w { globals = suc n ∷ w.globals; target = update w.target (suc n) (w.target obj) },
    refl,
    record {
      blocks = o.blocks;
      globals = λ a. ground (arith, o.globals a);
      weaks = o.weaks;
      solid = o.solid;
      safe = o.safe;
      mutex = o.mutex;
    },
  )

  pub new_weak_global_ref-Owned :
      (obj : ℕ)
      → Triple
          (Holds l bs gs ws)
          (new_weak_global_ref obj)
          (λ r. Holds l bs gs (plus r ws))
          (Holds l bs gs ws)
  unfolding new_weak_global_ref count
  new_weak_global_ref-Owned obj = bind (jni-Owned (Call.weak_global_ref obj)) λ n. total λ w o. (
    suc n,
    record w { weaks = suc n ∷ w.weaks },
    refl,
    record {
      blocks = o.blocks;
      globals = o.globals;
      weaks = λ a. ground (arith, o.weaks a);
      solid = o.solid;
      safe = o.safe;
      mutex = o.mutex;
    },
  )

-- What leaves the frame alone and always returns.
module _ {l : Bool} {bs gs ws : ℕ → ℕ} {E : World → Type 0} where
  pub framed_total :
      {m : M (Unit {0})}
      → ((w : World) → w.locked ≡ l → Frame w (m w).1)
      → ((w : World) → (m w).0 ≡ some tt)
      → Triple (Holds l bs gs ws) m (λ _. Holds l bs gs ws) E
  framed_total {m} k r =
      total λ w o. (tt, (m w).1, (λ i. (r w i, (m w).1)), Owned-Frame w (k w o.mutex) o)

-- Releases: they never return early, so any `E` will do.
module _ {l : Bool} {bs gs ws : ℕ → ℕ} {E : World → Type 0} where
  pub free-Owned : (p : ℕ) → Triple (Holds l (plus p bs) gs ws) (free p) (λ _. Holds l bs gs ws) E
  unfolding free
  free-Owned p = total λ w o. (
    tt,
    record w { blocks = erase p w.blocks },
    ground (arith, o.blocks p, o.blocks 0, has-pos_count p w.blocks),
    record {
      blocks = λ a.
          ground
            (arith, o.blocks a, o.blocks p, has-pos_count p w.blocks, count-erase a p w.blocks);
      globals = o.globals;
      weaks = o.weaks;
      solid = ground (arith, o.blocks p, has-pos_count p w.blocks, count-erase 0 p w.blocks);
      safe = o.safe;
      mutex = o.mutex;
    },
  )

  pub delete_global_ref-Owned :
      (r : ℕ) → Triple (Holds l bs (plus r gs) ws) (delete_global_ref r) (λ _. Holds l bs gs ws) E
  unfolding delete_global_ref
  delete_global_ref-Owned r = total λ w o. (
    tt,
    record w { globals = erase r w.globals },
    ground (arith, o.globals r, has-pos_count r w.globals),
    record {
      blocks = o.blocks;
      globals = λ a.
          ground
            (arith, o.globals a, o.globals r, has-pos_count r w.globals, count-erase a r w.globals);
      weaks = o.weaks;
      solid = o.solid;
      safe = o.safe;
      mutex = o.mutex;
    },
  )

-- ===== src/Strings/Calm.antt =====
-- The account together with the pending exception: a C string that is checked for an exception is
-- held if it is not NULL.
use wayland_java.Prelude.{
  ℕ, ◌≡◌, refl, Bool, true, false, not, Option, none, some, arith, ◌==◌, if◌then◌else◌,
}
use wayland_java.Errors.Quiet.{IsClear, Quiet, return_if_pending-IsClear}
use wayland_java.Jni.{
  Throwable, World, M, Post, returns, leaves, Triple, bind, cleanup, value, weaken, both,
  return_if_pending, checked,
}
use wayland_java.References.Keeps.{test_pending}
use wayland_java.References.Ownership.{plus}
use wayland_java.References.Registry.{Account}
use wayland_java.Strings.Account.{Bytes}

-- One more of `p`, unless it is NULL.
abbrev pub plus_if : ℕ → (ℕ → ℕ) → ℕ → ℕ
plus_if p bs = if not (p == 0) then plus p bs else bs

module _ (bs gs ws : ℕ → ℕ) where
  -- The account is in order, the mutex free, and no exception pending.
  abbrev pub Calm : World → Type 0
  Calm w = Account bs gs ws w × IsClear w

-- A block that is held is not NULL.
pub held_solid :
    (p : ℕ) (bs gs ws : ℕ → ℕ) (w : World) → Account (plus p bs) gs ws w → (p == 0) ≡ false
held_solid p bs gs ws w o = ground (arith, o.blocks 0, o.solid)

module _ (bs gs ws : ℕ → ℕ) where
  -- What a function has fetched, where `b` says that it is a block: then no exception is pending.
  abbrev pub Fetched : Bool → ℕ → World → Type 0
  Fetched b p w = Account (if b then plus p bs else bs) gs ws w × (b ≡ true → IsClear w)

  pub fetched : (p : ℕ) (w : World) → Bytes bs gs ws p w × IsClear w → Fetched (not (p == 0)) p w
  fetched p w (o, c) = (rw (held_solid p bs gs ws w o) o, λ _. c)

  -- The test for an exception behind it.
  pub return_if_pending-Fetched :
      (b : Bool) (p : ℕ)
      → Triple
          (Fetched b p)
          return_if_pending
          (λ _. Calm (if b then plus p bs else bs) gs ws)
          (Account bs gs ws)
  return_if_pending-Fetched b p = record { apply = λ w f. go b w w.pending refl f }
    where
      go :
          (b : Bool) (w : World) (t : Option Throwable)
          → w.pending ≡ t
          → Fetched b p w
          → Post {A = Unit {0}}
              (λ _. Calm (if b then plus p bs else bs) gs ws)
              (Account bs gs ws)
              (elim t [ none ↦ (some tt, w) | some t ↦ (none, w) ])
      go b w none h f = returns (f.0, h)
      go false w (some t) h f = leaves f.0
      go true w (some t) h f = absurd (ground (arith, f.1 refl))

module _ {bs gs ws : ℕ → ℕ} where
  pub calmly :
      {A : Type 0} {Q : A → World → Type 0} {m : M A}
      → Triple (Account bs gs ws) m Q (Account bs gs ws)
      → Quiet m
      → Triple (Calm bs gs ws) m (λ a w. Q a w × IsClear w) (Account bs gs ws)
  calmly t q = weaken (λ w p. p) (λ a w p. p) (λ w e. e.0) (both t q)

  -- A block, or NULL, and the test for an exception behind it.
  pub checked-Calm :
      {m : M ℕ}
      → Triple (Account bs gs ws) m (Bytes bs gs ws) (Account bs gs ws)
      → Quiet m
      → Triple (Calm bs gs ws) (checked m) (λ p. Calm (plus_if p bs) gs ws) (Account bs gs ws)
  checked-Calm t q =
      bind
        (cleanup (weaken (λ w p. p) (fetched bs gs ws) (λ w e. e) (calmly t q))
          (value 0 (λ w o. (o, λ h. absurd (ground (arith, h))))))
        λ p. bind (return_if_pending-Fetched bs gs ws (not (p == 0)) p) λ _. value p (λ w c. c)

  -- Behind the test for an exception none is pending.
  pub test_calms :
      Triple (Account bs gs ws) return_if_pending (λ _. Calm bs gs ws) (Account bs gs ws)
  test_calms =
      weaken (λ w o. (o, tt)) (λ a w p. p) (λ w e. e.0)
        (both test_pending return_if_pending-IsClear)

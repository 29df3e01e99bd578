-- ===== src/Strings/Held.antt =====
-- Rules for functions that catch the failures of their parts, and for C strings that may be NULL.
use wayland_java.Prelude.{ℕ, true, some, List}
use wayland_java.Arguments.Ownership.{free_argument}
use wayland_java.Jni.{
  Throwable, World, M, attempt, gets, modify, returns, Triple, cleanup, value, attempted, weaken,
  free, throw, or_null,
}
use wayland_java.References.Keeps.{Keeps}
use wayland_java.References.Registry.{Account}
use wayland_java.Strings.{string_to_utf8}
use wayland_java.Strings.Account.{string_to_utf8-Account}
use wayland_java.Strings.Calm.{plus_if, held_solid}

module _ {bs gs ws : ℕ → ℕ} {E : World → Type 0} where
  pub free_if : (p : ℕ) → Triple (Account (plus_if p bs) gs ws) (free p) (λ _. Account bs gs ws) E
  free_if p = free_argument true p bs

  pub fetch_string :
      (jstr : ℕ)
      → Triple
          (Account bs gs ws)
          (or_null (string_to_utf8 jstr))
          (λ p. Account (plus_if p bs) gs ws)
          E
  fetch_string jstr =
      cleanup
        (weaken (λ w o. o) (λ p w o. rw (held_solid p bs gs ws w o) o) (λ w o. o)
          (string_to_utf8-Account bs gs ws jstr))
        (value 0 (λ w o. o))

  pub tried_Keeps :
      {A : Type 0} {m : M A}
      → Keeps bs gs ws m
      → Triple (Account bs gs ws) (attempt m) (λ _. Account bs gs ws) E
  tried_Keeps t = attempted t

  pub tried_null :
      {m : M ℕ} → Keeps bs gs ws m → Triple (Account bs gs ws) (or_null m) (λ _. Account bs gs ws) E
  tried_null t = cleanup t (value 0 (λ w o. o))

  pub got :
      {A : Type 0} (f : World → A) → Triple (Account bs gs ws) (gets f) (λ _. Account bs gs ws) E
  got f = record { apply = λ w o. returns o }

  -- A change of what the account does not speak of.
  pub aside :
      (f : World → World)
      → ((w : World) → Account bs gs ws w → Account bs gs ws (f w))
      → Triple (Account bs gs ws) (modify f) (λ _. Account bs gs ws) E
  aside f k = record { apply = λ w o. returns (k w o) }

  pub thrown-Owned : (t : Throwable) → Triple (Account bs gs ws) (throw t) (λ _. Account bs gs ws) E
  thrown-Owned t =
      aside (λ w. record w { pending = some t })
        (λ w o. record {
          blocks = o.blocks;
          globals = o.globals;
          weaks = o.weaks;
          solid = o.solid;
          safe = o.safe;
          mutex = o.mutex;
        })

  pub set_fds :
      (f : List ℕ → List ℕ)
      → Triple
          (Account bs gs ws)
          (modify (λ w. record w { fds = f w.fds }))
          (λ _. Account bs gs ws)
          E
  set_fds f =
      aside (λ w. record w { fds = f w.fds })
        (λ w o. record {
          blocks = o.blocks;
          globals = o.globals;
          weaks = o.weaks;
          solid = o.solid;
          safe = o.safe;
          mutex = o.mutex;
        })

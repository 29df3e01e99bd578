-- ===== src/Resource/Listening.antt =====
-- server/resource.c and server/client.c: a destroy listener on the signal of a native object.
use wayland_java.Prelude.{
  ℕ, ◌≡◌, sym, subst, ◌≢◌, inl, inr, false, none, some, arith, ◌==◌, Option-cases,
}
use wayland_java.Jni.{World}
use wayland_java.Listener.{add_to_signal}
use wayland_java.Listener.Attached.{IsAttached, signal_add, add_to_signal-IsAttached}
use wayland_java.Resource.{resource_from_java, resource_add_destroy_listener}

module _ (jlistener p : ℕ) (w : World) (j : (jlistener == 0) ≡ false)
    (e : (add_to_signal jlistener w).0 ≡ some p) where
  resource_links :
      (jresource : ℕ)
      → (resource_add_destroy_listener jresource jlistener w).0 ≡ some tt
      → (resource_add_destroy_listener jresource jlistener w).1
        ≡ signal_add p (add_to_signal jlistener w).1
  unfolding resource_add_destroy_listener resource_from_java
  resource_links jresource h = ground (arith, j, e, h)

resource_adds :
    (jresource jlistener : ℕ) (w : World)
    → (jlistener == 0) ≡ false
    → (resource_add_destroy_listener jresource jlistener w).0 ≡ some tt
    → (add_to_signal jlistener w).0 ≢ none
unfolding resource_add_destroy_listener
resource_adds jresource jlistener w j h e = ground (arith, j, h, e)

-- Where no exception is pending, Resource.addDestroyListener, if it gets to its end, has attached the
-- listener: it is in the signal's list, its object points to its block, and the block and the
-- reference are live.
pub resource_add_destroy_listener-IsAttached :
    (jresource jlistener : ℕ) (w : World)
    → (jlistener == 0) ≡ false
    → w.pending ≡ none
    → (resource_add_destroy_listener jresource jlistener w).0 ≡ some tt
    → (p : ℕ) × IsAttached (resource_add_destroy_listener jresource jlistener w).1 jlistener p
resource_add_destroy_listener-IsAttached jresource jlistener w j c h =
    elim (Option-cases (add_to_signal jlistener w).0) [
      | inl e ↦ absurd (resource_adds jresource jlistener w j h e)
      | inr (p, e) ↦ (
        p,
        subst (λ u. IsAttached u jlistener p) (sym (resource_links jlistener p w j e jresource h))
            (add_to_signal-IsAttached jlistener p w j c e),
      )
    ]

-- ===== src/Wrapper/Destroyed.antt =====
-- native_object_wrapper.c, when libwayland destroys a native object.
use wayland_java.Prelude.{ℕ, ◌≡◌, Bool, true, false, none, arith, ◌==◌, has, erase}
use wayland_java.Jni.{Call, done, World, update}
use wayland_java.Wrapper.{zeroed, owned, release, disowned, destroy_notify}
use wayland_java.Wrapper.Phases.{held, phase}

-- What set_data has left: a wrapper without a reference, in no list.
pub record IsFresh (w : World) (jwrapper p native : ℕ) : Type 0 where
  pub object : (jwrapper == 0) ≡ false
  pub pointer : w.long_field (w.target jwrapper) ≡ p
  pub block : (p == 0) ≡ false
  pub wrapper : w.wrappers p ≡ record zeroed { native = native }
  pub calm : w.pending ≡ none

-- The caller puts the wrapper's listener on the native object's destroy signal.
abbrev pub add_destroy_listener : ℕ → World → World
add_destroy_listener p w = record w {
  wrappers = update w.wrappers p (record (w.wrappers p) { linked = true });
}

module _ (jwrapper p native : ℕ) (flag : Bool) (w : World)
    (fresh : IsFresh w jwrapper p native) where
  -- The three steps of a client: owned, listening, and its native object destroyed.
  abbrev after_owned : World
  after_owned = (owned jwrapper 0 flag w).1

  abbrev pub after_destroy : World
  after_destroy = (destroy_notify p (add_destroy_listener p after_owned)).1

  -- When the native object is destroyed, whichever `destroyed_by_owner` the wrapper was given, the
  -- Java object still holds a wrapper with the pointer to it, and its block is not freed.
  pub destroyed-keeps :
      (r : ℕ)
      → w.outside w.log (Call.global_ref jwrapper) ≡ done r
      → (phase jwrapper after_destroy ≡ held native)
        × (after_destroy.blocks ≡ w.blocks)
        × (after_destroy.globals ≡ w.globals)
  unfolding owned destroy_notify disowned release has erase
  destroyed-keeps r a = (ground (arith, fresh.wrapper), ground arith, ground arith)

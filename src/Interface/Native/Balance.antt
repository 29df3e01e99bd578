-- ===== src/Interface/Native/Balance.antt =====
-- interface.c: the blocks of a message, and of a whole native interface.
use wayland_java.Prelude.{ℕ, ◌≡◌, refl, false, List, [], ◌∷◌}
use wayland_java.Interface.Native.{release_interface}
use wayland_java.Interface.Native.Messages.{destroy_native_message, destroy_up}
use wayland_java.Jni.{Message, NativeInterface, World, gets, Post, returns, Triple, bind, value}
use wayland_java.References.Keeps.{set_long_field-Owned}
use wayland_java.References.Ownership.{Owned}
use wayland_java.References.Registry.{Account}
use wayland_java.Strings.Calm.{plus_if}
use wayland_java.Strings.Held.{free_if}

-- The blocks of a message, as destroy_native_message frees them.
abbrev pub held_message : Message → (ℕ → ℕ) → ℕ → ℕ
held_message msg bs = plus_if msg.name (plus_if msg.signature (plus_if msg.types bs))

abbrev pub held_messages : List Message → (ℕ → ℕ) → ℕ → ℕ
held_messages [] bs = bs
held_messages (msg ∷ msgs) bs = held_message msg (held_messages msgs bs)

-- The blocks of a native interface, as destroyNative frees them.
abbrev pub held_interface : ℕ → NativeInterface → (ℕ → ℕ) → ℕ → ℕ
held_interface p s bs = held_messages s.event_messages (
    plus_if s.events (
      held_messages s.method_messages (
        plus_if s.methods
          (plus_if s.name (plus_if s.requests (plus_if s.event_methods (plus_if p bs)))))))

module _ {gs ws : ℕ → ℕ} {E : World → Type 0} where
  destroy_native_message-Owned :
      (msg : Message) (bs : ℕ → ℕ)
      → Triple
          (Account (held_message msg bs) gs ws)
          (destroy_native_message msg)
          (λ _. Account bs gs ws)
          E
  unfolding destroy_native_message
  destroy_native_message-Owned msg bs =
      bind (free_if msg.name) λ _. bind (free_if msg.signature) λ _. free_if msg.types

  destroy_up-Owned :
      (msgs : List Message) (bs : ℕ → ℕ)
      → Triple (Account (held_messages msgs bs) gs ws) (destroy_up msgs) (λ _. Account bs gs ws) E
  unfolding destroy_up
  destroy_up-Owned [] bs = value tt (λ w o. o)
  destroy_up-Owned (msg ∷ msgs) bs =
      bind (destroy_native_message-Owned msg (held_messages msgs bs)) λ _. destroy_up-Owned msgs bs

module _ {bs gs ws : ℕ → ℕ} where
  read_interface :
      (p : ℕ) (s : NativeInterface)
      → Triple
          (λ w. Account (held_interface p s bs) gs ws w × (w.interfaces p ≡ s))
          (gets (λ w. w.interfaces p))
          (λ t. Account (held_interface p t bs) gs ws)
          (Account bs gs ws)
  read_interface p s = record { apply = λ w (o, h). returns (rw h o) }

  release_interface-Owned :
      (jinterface p : ℕ) (s : NativeInterface)
      → Triple
          (λ w. Account (held_interface p s bs) gs ws w × (w.interfaces p ≡ s))
          (release_interface jinterface p)
          (λ _. Account bs gs ws)
          (Account bs gs ws)
  unfolding release_interface
  release_interface-Owned jinterface p s = bind (read_interface p s) λ t.
      bind (destroy_up-Owned t.event_messages _) λ _. bind (free_if t.events) λ _.
        bind (destroy_up-Owned t.method_messages _) λ _. bind (free_if t.methods) λ _.
          bind (free_if t.name) λ _. bind (free_if t.requests) λ _.
            bind (free_if t.event_methods)
              λ _. bind (free_if p) λ _. set_long_field-Owned jinterface 0

-- From an account in which a native interface holds its blocks, those of its messages among them,
-- with the mutex free, Interface.destroyNative behind its lookup frees each of them once, and
-- releases nothing else, also where the pointer's field cannot be written.
pub release_interface-balanced :
    (bs gs ws : ℕ → ℕ) (w : World) (jinterface p : ℕ)
    → Owned w false (held_interface p (w.interfaces p) bs) gs ws
    → Post (λ _. Account bs gs ws) (Account bs gs ws) (release_interface jinterface p w)
release_interface-balanced bs gs ws w jinterface p o =
    (release_interface-Owned jinterface p (w.interfaces p)).apply w (o, refl)

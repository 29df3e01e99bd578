-- ===== src/ClientDisplay/Balance.antt =====
-- client/display.c: a display whose connection fails.
use wayland_java.Prelude.{ℕ, ◌≡◌, false, Option, none, some, [], ◌∷◌}
use wayland_java.ClientDisplay.{display_create_from_native, connect_name}
use wayland_java.Errors.{throw_errno}
use wayland_java.Errors.Answered.{Pointer, jni_ptr_answered, beside}
use wayland_java.Errors.Caught.{IsLast, posts}
use wayland_java.Errors.Quiet.{Anything}
use wayland_java.Jni.{
  Call, World, fail, ◌>>◌, Post, Triple, bind, cleanup, leave, attempted, weaken, both,
}
use wayland_java.References.Keeps.{wayland_ptr-Owned, wayland_call-Owned}
use wayland_java.References.Ownership.{Owned, jni_ptr-Owned}
use wayland_java.References.Registry.{errno-Owned, Account}
use wayland_java.Strings.Account.{string_to_default-Account}
use wayland_java.Strings.Calm.{Calm, checked-Calm}
use wayland_java.Strings.Held.{free_if}
use wayland_java.Strings.Quiet.{string_to_default-Quiet}

-- A display that is given no Java object is disconnected: the last call says so.
abbrev pub IsDisconnected : ℕ → World → Type 0
IsDisconnected display = IsLast (Call.wayland "wl_display_disconnect" (display ∷ []))

-- The object is what NewObject has answered, called last, with the display's pointer for a
-- constructor of the class.
abbrev pub IsNew : (cls display obj : ℕ) → World → Type 0
IsNew cls display obj w = (ctor : ℕ) × Pointer (Call.new_object cls ctor (display ∷ [])) obj w

module _ {bs gs ws : ℕ → ℕ} where
  display_create_from_native-Keeps :
      (cls display : ℕ)
      → Triple
          (Account bs gs ws)
          (display_create_from_native cls display)
          (λ obj w. Account bs gs ws w × IsNew cls display obj w)
          (λ w. Account bs gs ws w × IsDisconnected display w)
  unfolding display_create_from_native
  display_create_from_native-Keeps cls display =
      cleanup
        (bind (jni_ptr-Owned (Call.get_method_id cls "<init>" "(J)V")) λ ctor.
          weaken (λ w o. o) (λ a w (o, n). (o, (ctor, n))) (λ w o. o)
            (beside (jni_ptr-Owned (Call.new_object cls ctor (display ∷ [])))
              (jni_ptr_answered (Call.new_object cls ctor (display ∷ [])))))
        (bind
          (weaken (λ w o. (o, tt)) (λ a w x. x) (λ w x. x.1)
            (both (wayland_call-Owned {E = Anything} "wl_display_disconnect" (display ∷ [])) (
              posts {E = λ w. Account bs gs ws w × IsDisconnected display w} "wl_display_disconnect"
                (display ∷ []))))
          λ _. leave (λ w x. x))

  created :
      (cls : ℕ) (display : Option ℕ)
      → Triple {A = ℕ}
          (Account bs gs ws)
          (elim display [ none ↦ throw_errno >> fail | some d ↦ display_create_from_native cls d ])
          (λ _. Account bs gs ws)
          (Account bs gs ws)
  created cls none = bind errno-Owned λ _. leave (λ w o. o)
  created cls (some d) =
      weaken (λ w o. o) (λ a w x. x.0) (λ w x. x.0) (display_create_from_native-Keeps cls d)

  connect_name-Keeps :
      (cls jname : ℕ)
      → Triple (Calm bs gs ws) (connect_name cls jname) (λ _. Account bs gs ws) (Account bs gs ws)
  unfolding connect_name
  connect_name-Keeps cls jname =
      bind (checked-Calm (string_to_default-Account bs gs ws jname) (string_to_default-Quiet jname))
        λ name.
          bind
            (weaken (λ w c. c.0) (λ a w o. o) (λ w o. o)
              (attempted (wayland_ptr-Owned "wl_display_connect" (name ∷ []))))
            λ display. bind (free_if name) λ _. created cls display

-- From a balanced account and a free mutex, and with no exception pending, Display.connect of a name
-- ends with the account balanced, connected or not: the C string of the name is freed.
pub connect_name-balanced :
    (bs gs ws : ℕ → ℕ) (w : World)
    → Owned w false bs gs ws
    → w.pending ≡ none
    → (cls jname : ℕ) → Post (λ _. Account bs gs ws) (Account bs gs ws) (connect_name cls jname w)
connect_name-balanced bs gs ws w o c cls jname = (connect_name-Keeps cls jname).apply w (o, c)

-- From a balanced account and a free mutex, a connected display either becomes the pointer of a new
-- Java object, the one that NewObject answers to the last call, which passes the display; or the
-- last call disconnects it. The account is balanced in both cases.
pub display_create_from_native-disconnects :
    (bs gs ws : ℕ → ℕ) (w : World)
    → Owned w false bs gs ws
    → (cls display : ℕ)
    → Post
        (λ obj u. Account bs gs ws u × IsNew cls display obj u)
        (λ u. Account bs gs ws u × IsDisconnected display u)
        (display_create_from_native cls display w)
display_create_from_native-disconnects bs gs ws w o cls display =
    (display_create_from_native-Keeps cls display).apply w o

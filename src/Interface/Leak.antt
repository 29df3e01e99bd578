-- ===== src/Interface/Leak.antt =====
-- interface.c: the block of the class name that get_java_method takes.
use wayland_java.Prelude.{
  ℕ, String, len, ◌≡◌, refl, Bool, true, false, List, [], ltb, if◌then◌else◌,
}
use wayland_java.Errors.Answered.{Pointer, jni_ptr_answered, beside}
use wayland_java.Interface.{
  java_signature, max_jsig_len, get_proxy_java_name, last_index, get_java_method,
}
use wayland_java.Jni.{
  Call, World, M, pure, Post, Triple, bind, cleanup, value, leave, total, weaken, crash, static,
}
use wayland_java.References.Ownership.{Owned, jni-Owned, jni_ptr-Owned, ask-Owned, gets-Owned}
use wayland_java.References.Registry.{Account}
use wayland_java.Strings.Account.{Bytes, string_to_default-Account}

-- What an early return leaves is not said here.
loosely :
    {A : Type 0} {P E : World → Type 0} {Q : A → World → Type 0} {m : M A}
    → Triple P m Q E
    → Triple P m Q (λ _. Unit {0})
loosely t = weaken (λ w p. p) (λ a w q. q) (λ w e. tt) t

in_bounds :
    {b : Bool} {P E : World → Type 0}
    → b ≡ true
    → Triple P (if b then pure tt else crash) (λ _. P) E
in_bounds h = rw h (value tt (λ w o. o))

module _ (bs gs ws : ℕ → ℕ) where
  get_proxy_java_name-Bytes :
      (jinterface : ℕ) (member : String)
      → Triple
          (Account bs gs ws)
          (get_proxy_java_name jinterface member)
          (Bytes bs gs ws)
          (λ _. Unit {0})
  unfolding get_proxy_java_name
  get_proxy_java_name-Bytes jinterface member = bind (loosely (gets-Owned (static member))) λ f.
      bind (loosely (jni-Owned (Call.get_object_field jinterface f))) λ cls.
        bind (loosely (gets-Owned (static "interface.java.lang.Class.getName"))) λ m.
          bind (loosely (jni-Owned (Call.call_method cls m []))) λ jname.
            cleanup (string_to_default-Account bs gs ws jname) (
              bind {Q = λ _ _. Unit {0}} (total λ w o. (tt, record w { fault = true }, refl, tt))
                λ _. leave (λ w o. tt))

  -- One more block is held, the one of the name behind the signature of the last call; and the
  -- method is the answer to that call.
  abbrev pub Lost : (ℕ → String) → String → List ℕ → Bool → ℕ → World → Type 0
  Lost text_at message_name signature events method_id w =
      (p : ℕ) × (cls : ℕ) × Bytes bs gs ws p w
      × Pointer (Call.get_method_id cls message_name (java_signature events (text_at p) signature))
          method_id w

  get_java_method-Lost :
      (text_at : ℕ → String) (jinterface : ℕ) (message_name : String) (signature : List ℕ)
      (events : Bool)
      → ((p : ℕ) → ltb (len (java_signature events (text_at p) signature)) max_jsig_len ≡ true)
      → Triple
          (Account bs gs ws)
          (get_java_method text_at jinterface message_name signature events)
          (Lost text_at message_name signature events)
          (λ _. Unit {0})
  unfolding get_java_method
  get_java_method-Lost text_at jinterface message_name signature events fits =
      bind
        (loosely (
          gets-Owned
            (static (if events then "Interface.eventsIfaces" else "Interface.requestsIfaces"))))
        λ f. bind (loosely (jni-Owned (Call.get_object_field jinterface f))) λ list.
          bind (loosely (ask-Owned (Call.get_array_length list))) λ n.
            bind (loosely (jni-Owned (Call.get_object_array_element list (last_index n)))) λ cls.
              bind
                (get_proxy_java_name-Bytes jinterface
                  (if events then "Interface.proxyClass" else "Interface.resourceClass"))
                λ p. bind (in_bounds (fits p)) λ _.
                  let c : Call =
                    Call.get_method_id cls message_name
                      (java_signature events (text_at p) signature) in
                  weaken (λ w o. o) (λ a w (o, n). (p, cls, o, n)) (λ w o. tt)
                    (beside (jni_ptr-Owned c) (jni_ptr_answered c))

-- From a balanced account and a free mutex, and with class names whose JNI signatures all fit, a
-- call of get_java_method that returns a method leaves one more block held, whose string is the
-- class name in the signature that its last call looks up; and what it returns is the answer of
-- that call, GetMethodID.
pub get_java_method-leaks :
    (bs gs ws : ℕ → ℕ) (w : World)
    → Owned w false bs gs ws
    → (text_at : ℕ → String) (jinterface : ℕ) (message_name : String) (signature : List ℕ)
      (events : Bool)
    → ((p : ℕ) → ltb (len (java_signature events (text_at p) signature)) max_jsig_len ≡ true)
    → Post
        (Lost bs gs ws text_at message_name signature events)
        (λ _. Unit {0})
        (get_java_method text_at jinterface message_name signature events w)
get_java_method-leaks bs gs ws w o text_at jinterface message_name signature events fits =
    (get_java_method-Lost bs gs ws text_at jinterface message_name signature events fits).apply w o

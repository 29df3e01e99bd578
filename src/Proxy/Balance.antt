-- ===== src/Proxy/Balance.antt =====
-- client/proxy.c: the account of blocks and references of the requests that a Proxy sends, and of
-- its native object.
use wayland_java.Prelude.{
  ℕ, suc, String, ◌≡◌, refl, false, Option, none, some, List, [], ◌∷◌, arith, ◌==◌,
}
use wayland_java.Arguments.Balance.{address_of, Supplies, Unsent, kept, Sent, send_array-Sent}
use wayland_java.Arguments.Converted.{when_case}
use wayland_java.Arguments.Counts.{is_marshalled}
use wayland_java.Arguments.Sent.{send_array}
use wayland_java.Errors.{throw_null_pointer, throw_illegal_state}
use wayland_java.Interface.Native.{native_interface_from_java}
use wayland_java.Interface.Native.Made.{native_of, IsMade, made_interface}
use wayland_java.Jni.{
  Call, Answer, done, failed, Throwable, thrown, World, M, gets, ◌>>=◌, ◌>>◌, record_call, jni,
  Post, returns, leaves, Triple, bind, value, leave, total, weaken, given, return_if_pending,
  static, get_long_field, checked, require,
}
use wayland_java.Proxy.{proxy_from_java, marshal}
use wayland_java.References.Keeps.{Keeps, done-Keeps, throwing, pick, get_long_field-Owned}
use wayland_java.References.Ownership.{Owned}
use wayland_java.References.Registry.{null_pointer-Owned, illegal_state-Owned, Account}
use wayland_java.Strings.Calm.{Calm}

module _ {bs gs ws : ℕ → ℕ} where
  -- The test for NULL, with an exception.
  pub require-Keeps : (p : ℕ) {m : M (Unit {0})} → Keeps bs gs ws m → Keeps bs gs ws (require p m)
  require-Keeps p t = pick (p == 0) (throwing t) (done-Keeps tt)

  pub proxy_from_java-Keeps : (jproxy : ℕ) → Keeps bs gs ws (proxy_from_java jproxy)
  unfolding proxy_from_java
  proxy_from_java-Keeps jproxy = pick (jproxy == 0) (done-Keeps 0) (get_long_field-Owned jproxy)

-- What Proxy.marshal asks of Java and of `malloc` first.
abbrev pub interface_call : ℕ → World → Call
interface_call jproxy w = Call.get_object_field jproxy (static "Proxy.iface" w)

abbrev pub array_of : ℕ → World → ℕ
array_of jproxy w = address_of (w.outside (interface_call jproxy w ∷ w.log) Call.malloc)

-- The interface that the proxy's field is answered to be has its native interface.
abbrev pub HasInterface : ℕ → World → Type 0
HasInterface jproxy w = (n : ℕ) → w.outside w.log (interface_call jproxy w) ≡ done n → IsMade n w

module _ (text_at : ℕ → String) (bytes_at : ℕ → List ℕ) (depth : ℕ) where
  abbrev to_interface : ℕ → M ℕ
  to_interface = native_interface_from_java text_at bytes_at (suc depth)

  module _ (bs gs ws : ℕ → ℕ) (target array : ℕ) where
    abbrev Ready : World → Type 0
    Ready w = Calm bs gs ws w × Supplies array w

    converted :
        (i : ℕ)
        → Triple
            (λ w. (Account bs gs ws w × IsMade i w) × Supplies array w)
            (checked (to_interface i))
            (λ _. Ready)
            (Unsent array bs gs ws)
    converted i =
        bind
          (total λ w p.
            (native_of i w, w, made_interface text_at bytes_at depth i w p.0.1, (p.0.0, p.1)))
          λ v. bind still λ _. value v (λ w r. r)
      where
        still :
            Triple
              (λ w. Account bs gs ws w × Supplies array w)
              return_if_pending
              (λ _. Ready)
              (Unsent array bs gs ws)
        still = record { apply = λ w p. go w w.pending refl p }
          where
            go :
                (w : World) (t : Option Throwable)
                → w.pending ≡ t
                → Account bs gs ws w × Supplies array w
                → Post {A = Unit {0}}
                    (λ _. Ready)
                    (Unsent array bs gs ws)
                    (elim t [ none ↦ (some tt, w) | some t ↦ (none, w) ])
            go w none h (o, s) = returns ((o, h), s)
            go w (some t) h (o, s) = leaves (kept o)

    -- The field of the proxy.
    fetched_interface :
        (jproxy : ℕ)
        → Triple
            (λ w. (Account bs gs ws w × HasInterface jproxy w) × (array_of jproxy w ≡ array))
            (gets (static "Proxy.iface") >>= λ iface. jni (Call.get_object_field jproxy iface))
            (λ i w. (Account bs gs ws w × IsMade i w) × Supplies array w)
            (Unsent array bs gs ws)
    unfolding jni
    fetched_interface jproxy = record {
      apply =
          λ w p. let c = interface_call jproxy w in go w c (w.outside w.log c) refl p.0.0 p.0.1 p.1;
    }
      where
        go :
            (w : World) (c : Call) (r : Answer)
            → w.outside w.log c ≡ r
            → Account bs gs ws w
            → ((n : ℕ) → w.outside w.log c ≡ done n → IsMade n w)
            → address_of (w.outside (c ∷ w.log) Call.malloc) ≡ array
            → Post {A = ℕ}
                (λ i w. (Account bs gs ws w × IsMade i w) × Supplies array w)
                (Unsent array bs gs ws)
                (elim r [
                  | done n ↦ (some n, record_call w c)
                  | failed e ↦ (none, record w { log = c ∷ w.log; pending = some (thrown e) })
                ])
        go w c (done n) h o k s = returns (
          (
            record {
              blocks = o.blocks;
              globals = o.globals;
              weaks = o.weaks;
              solid = o.solid;
              safe = o.safe;
              mutex = o.mutex;
            },
            k n h,
          ),
          s,
        )
        go w c (failed e) h o k s = leaves (
            kept (record {
              blocks = o.blocks;
              globals = o.globals;
              weaks = o.weaks;
              solid = o.solid;
              safe = o.safe;
              mutex = o.mutex;
            }))

    -- Behind the two tests for NULL.
    onto_wire :
        (jproxy opcode jargs : ℕ) (signature_at : ℕ → ℕ → List ℕ)
        → Triple
            (λ w. (Account bs gs ws w × HasInterface jproxy w) × (array_of jproxy w ≡ array))
            (do
              iface ← gets (static "Proxy.iface")
              jinterface ← jni (Call.get_object_field jproxy iface)
              interface ← checked (to_interface jinterface)
              require interface throw_null_pointer
              send_array proxy_from_java is_marshalled "wl_proxy_marshal_array" target opcode jargs
                  (signature_at interface opcode))
            (λ _.
              Sent array bs gs ws
                (Call.wayland "wl_proxy_marshal_array" (target ∷ opcode ∷ array ∷ [])))
            (Unsent array bs gs ws)
    onto_wire jproxy opcode jargs signature_at = bind (fetched_interface jproxy) λ jinterface.
        bind (converted jinterface) λ interface. bind {Q = λ _. Ready} (required interface) λ _.
          send_array-Sent array bs gs ws proxy_from_java (λ cs o. proxy_from_java-Keeps o)
            is_marshalled "wl_proxy_marshal_array" target opcode jargs
            (signature_at interface opcode)
      where
        required :
            (interface : ℕ)
            → Triple Ready
                (require interface throw_null_pointer)
                (λ _. Ready)
                (Unsent array bs gs ws)
        required interface =
            when_case (interface == 0)
              (λ _.
                weaken (λ w r. r.0.0) (λ a w x. x) (λ w o. kept o)
                  (bind {R = λ _. Ready} null_pointer-Owned λ _. leave (λ w o. o)))
              (λ _. value tt (λ w r. r))

    abbrev Waiting : ℕ → World → Type 0
    Waiting jproxy w = (Account bs gs ws w × HasInterface jproxy w) × (array_of jproxy w ≡ array)

    found :
        (jproxy : ℕ)
        → Triple
            (λ w. Waiting jproxy w × (native_of jproxy w ≡ target))
            (proxy_from_java jproxy)
            (λ proxy w. Waiting jproxy w × (proxy ≡ target))
            (Unsent array bs gs ws)
    unfolding proxy_from_java get_long_field
    found jproxy = total λ w p. (native_of jproxy w, w, ground arith, p)

    marshal-Sent :
        (jproxy opcode jargs : ℕ) (signature_at : ℕ → ℕ → List ℕ)
        → Triple
            (λ w. Waiting jproxy w × (native_of jproxy w ≡ target))
            (marshal to_interface signature_at jproxy opcode jargs)
            (λ _.
              Sent array bs gs ws
                (Call.wayland "wl_proxy_marshal_array" (target ∷ opcode ∷ array ∷ [])))
            (Unsent array bs gs ws)
    unfolding marshal
    marshal-Sent jproxy opcode jargs signature_at =
        bind (found jproxy) λ proxy. given λ e. onward proxy e
      where
        required :
            Triple
              (Waiting jproxy)
              (require target throw_illegal_state)
              (λ _. Waiting jproxy)
              (Unsent array bs gs ws)
        required =
            when_case (target == 0)
              (λ _.
                weaken (λ w p. p.0.0) (λ a w x. x) (λ w o. kept o)
                  (bind {R = λ _. Waiting jproxy} illegal_state-Owned λ _. leave (λ w o. o)))
              (λ _. value tt (λ w p. p))

        onward :
            (proxy : ℕ)
            → proxy ≡ target
            → Triple
                (Waiting jproxy)
                (do
                  require proxy throw_illegal_state
                  iface ← gets (static "Proxy.iface")
                  jinterface ← jni (Call.get_object_field jproxy iface)
                  interface ← checked (to_interface jinterface)
                  require interface throw_null_pointer
                  send_array proxy_from_java is_marshalled "wl_proxy_marshal_array" proxy opcode
                      jargs
                      (signature_at interface opcode))
                (λ _.
                  Sent array bs gs ws
                    (Call.wayland "wl_proxy_marshal_array" (target ∷ opcode ∷ array ∷ [])))
                (Unsent array bs gs ws)
        onward proxy e = rw e (bind required λ _. onto_wire jproxy opcode jargs signature_at)

-- From a balanced account and a free mutex, where the interface that the proxy's field is answered
-- to be has its native interface or is null, Proxy.marshal either sends its request, by a last call
-- that passes the native proxy, the opcode and the argument array, the block that `malloc` has
-- answered behind that field, and ends with the account balanced; or it leaves early with the
-- account balanced; or, with an exception pending, with the block of that array lost and nothing
-- else; or, with no exception pending, with a fault, the account being in order but for that fault
-- and for the array.
pub marshal-balanced :
    (bs gs ws : ℕ → ℕ) (w : World)
    → Owned w false bs gs ws
    → (jproxy : ℕ) → HasInterface jproxy w
    → (text_at : ℕ → String) (bytes_at : ℕ → List ℕ) (depth : ℕ) (signature_at : ℕ → ℕ → List ℕ)
      (opcode jargs : ℕ)
    → Post
        (λ _. Sent (array_of jproxy w) bs gs ws (
          Call.wayland "wl_proxy_marshal_array"
            (native_of jproxy w ∷ opcode ∷ array_of jproxy w ∷ [])))
        (Unsent (array_of jproxy w) bs gs ws)
        (marshal
          (native_interface_from_java text_at bytes_at (suc depth))
          signature_at
          jproxy
          opcode
          jargs
          w)
marshal-balanced bs gs ws w o jproxy k text_at bytes_at depth signature_at opcode jargs =
    (marshal-Sent text_at bytes_at depth bs gs ws (native_of jproxy w) (array_of jproxy w) jproxy
        opcode jargs signature_at).apply
      w (((o, k), refl), refl)

-- ===== src/Arguments/Balance.antt =====
-- The blocks of a message that is sent (client/proxy.c and server/resource.c).
use wayland_java.Prelude.{
  ℕ, suc, String, ◌≡◌, refl, Bool, true, false, Option, none, some, List, [], ◌∷◌, arith,
}
use wayland_java.Arguments.{
  get_next_argument, is_owned, arguments_from_java_destroy, arguments_from_java,
}
use wayland_java.Arguments.Converted.{when_case, arguments_from_java-Calm}
use wayland_java.Arguments.Counts.{count_if}
use wayland_java.Arguments.Ownership.{holding, arguments_from_java_destroy-Owned}
use wayland_java.Arguments.Sent.{send_array}
use wayland_java.Errors.{throw_out_of_memory}
use wayland_java.Errors.Caught.{IsLast, posts}
use wayland_java.Errors.Quiet.{Anything, IsClear, ending, allocate-Quiet, or_ends-Quiet}
use wayland_java.Jni.{
  Call, Answer, done, failed, Throwable, World, M, pure, fail, or_else, attempt, ◌>>=◌, ◌>>◌,
  modify, record_call, call, Post, returns, leaves, Triple, bind, cleanup, value, leave, total,
  attempted, weaken, both, given, allocate, free, return_if_pending, wayland_call, written,
}
use wayland_java.References.Keeps.{Keeps, wayland_call-Owned}
use wayland_java.References.Ownership.{plus, allocate-Owned, free-Owned}
use wayland_java.References.Registry.{no_memory-Owned, Account}
use wayland_java.Strings.Calm.{Calm, calmly}

-- Where no exception is pending, the test for one passes.
pub return_if_pending-Calm :
    {bs gs ws : ℕ → ℕ} {E : World → Type 0}
    → Triple (Calm bs gs ws) return_if_pending (λ _. Calm bs gs ws) E
return_if_pending-Calm {bs} {gs} {ws} {E} = record { apply = λ w p. go w w.pending refl p }
  where
    go :
        (w : World) (t : Option Throwable)
        → w.pending ≡ t
        → Calm bs gs ws w
        → Post {A = Unit {0}}
            (λ _. Calm bs gs ws)
            E
            (elim t [ none ↦ (some tt, w) | some t ↦ (none, w) ])
    go w none h p = returns p
    go w (some t) h p = absurd (ground (arith, h, p.1))

-- What `malloc` gives.
abbrev pub address_of : Answer → ℕ
address_of (done n) = suc n
address_of (failed e) = 0

-- The next call, if it is one of `malloc`, gives `array`.
abbrev pub Supplies : ℕ → World → Type 0
Supplies array w = address_of (w.outside w.log Call.malloc) ≡ array

-- How a message is not sent: nothing is lost; or the block of its arguments is, and nothing else,
-- behind an exception; or, behind no exception, C goes on with arguments that the conversion has
-- freed.
pub data Unsent (array : ℕ) (bs gs ws : ℕ → ℕ) (w : World) : Type 0 where
  kept : Account bs gs ws w → Unsent array bs gs ws w
  leaked :
      Account (plus array bs) gs ws w
      → (t : Throwable) → w.pending ≡ some t
      → Unsent array bs gs ws w
  broken :
      Account (plus array bs) gs ws (record w { fault = false })
      → w.fault ≡ true
      → IsClear w
      → Unsent array bs gs ws w

supplied_call :
    (array : ℕ) → Triple (Supplies array) (call Call.malloc) (λ n _. suc n ≡ array) Anything
unfolding call
supplied_call array = record { apply = λ w s. go w (w.outside w.log Call.malloc) s }
  where
    go :
        (w : World) (r : Answer)
        → address_of r ≡ array
        → Post {A = ℕ}
            (λ n _. suc n ≡ array)
            Anything
            (elim r [
              | done n ↦ (some n, record_call w Call.malloc)
              | failed e ↦ (none, record_call w Call.malloc)
            ])
    go w (done n) s = returns s
    go w (failed e) s = leaves tt

supplied :
    (array : ℕ)
    → Triple
        (Supplies array)
        (or_else allocate (throw_out_of_memory >> fail))
        (λ p _. p ≡ array)
        Anything
unfolding allocate
supplied array =
    cleanup
      (bind {f = λ n. modify (λ w. record w { blocks = suc n ∷ w.blocks }) >> pure (suc n)}
        (supplied_call array) λ n. record { apply = λ w s. returns s })
      (ending throw_out_of_memory)

-- Freeing makes no call.
module _ {E : World → Type 0} {c : Call} where
  free-IsLast : (p : ℕ) → Triple (IsLast c) (free p) (λ _. IsLast c) E
  unfolding free
  free-IsLast p = total λ w (before, h). (tt, (free p w).1, ground arith, (before, ground arith))

  destroy-IsLast :
      (args signature : List ℕ)
      → Triple (IsLast c) (arguments_from_java_destroy args signature) (λ _. IsLast c) E
  unfolding arguments_from_java_destroy
  destroy-IsLast [] signature = value tt (λ w h. h)
  destroy-IsLast (arg ∷ args) signature =
      bind
        (when_case (is_owned (get_next_argument signature).0.type) (λ _. free-IsLast arg)
          (λ _. value tt (λ w h. h)))
        λ _. destroy-IsLast args (get_next_argument signature).1

module _ (array : ℕ) (bs gs ws : ℕ → ℕ) where
  -- The message has been sent by `c`, the last call.
  abbrev pub Sent : Call → World → Type 0
  Sent c w = Account bs gs ws w × IsLast c w

  abbrev Converted : List ℕ → Option (List ℕ) → World → Type 0
  Converted signature none = Account (plus array bs) gs ws
  Converted signature (some values) = Calm (holding values signature (plus array bs)) gs ws

  -- The test for an exception, where the block of the arguments is held.
  tested :
      Triple
        (Account (plus array bs) gs ws)
        return_if_pending
        (λ _. Calm (plus array bs) gs ws)
        (Unsent array bs gs ws)
  tested = record { apply = λ w o. go w w.pending refl o }
    where
      go :
          (w : World) (t : Option Throwable)
          → w.pending ≡ t
          → Account (plus array bs) gs ws w
          → Post {A = Unit {0}}
              (λ _. Calm (plus array bs) gs ws)
              (Unsent array bs gs ws)
              (elim t [ none ↦ (some tt, w) | some t ↦ (none, w) ])
      go w none h o = returns (o, h)
      go w (some t) h o = leaves (leaked o t h)

  -- What is left to do with the converted arguments.
  abbrev deliver : String → ℕ → ℕ → ℕ → List ℕ → List ℕ → M (Unit {0})
  deliver function target opcode args signature values = do
    wayland_call function (target ∷ opcode ∷ args ∷ [])
    arguments_from_java_destroy values signature
    free args

  unwritten :
      (f : List ℕ → M (Unit {0})) (Q : Unit {0} → World → Type 0)
      → Triple (Calm (plus array bs) gs ws) (written none >>= f) Q (Unsent array bs gs ws)
  unwritten f Q = record {
    apply = λ w (o, c). leaves (
        broken
          (record {
            blocks = o.blocks;
            globals = o.globals;
            weaks = o.weaks;
            solid = o.solid;
            safe = refl;
            mutex = o.mutex;
          })
          refl c);
  }

  delivered :
      (function : String) (target opcode : ℕ) (signature values : List ℕ)
      → Triple
          (Account (holding values signature (plus array bs)) gs ws)
          (deliver function target opcode array signature values)
          (λ _. Sent (Call.wayland function (target ∷ opcode ∷ array ∷ [])))
          (Unsent array bs gs ws)
  delivered function target opcode signature values =
      let arguments : List ℕ = target ∷ opcode ∷ array ∷ [] in
      weaken (λ w o. (o, tt)) (λ a w h. h) (λ w e. e.0)
        (both {E' = Anything}
          (bind (wayland_call-Owned function arguments) λ _.
            bind (arguments_from_java_destroy-Owned values signature (plus array bs))
              λ _. free-Owned array)
          (bind (posts function arguments)
            λ _. bind (destroy-IsLast values signature) λ _. free-IsLast array))

  sent :
      (function : String) (target opcode : ℕ) (signature : List ℕ) (r : Option (List ℕ))
      → Triple
          (Converted signature r)
          (do
            return_if_pending
            values ← written r
            deliver function target opcode array signature values)
          (λ _. Sent (Call.wayland function (target ∷ opcode ∷ array ∷ [])))
          (Unsent array bs gs ws)
  sent function target opcode signature none =
      bind tested λ _. unwritten (deliver function target opcode array signature) _
  sent function target opcode signature (some values) = bind return_if_pending-Calm λ _.
      bind (value values (λ w c. c.0)) λ values. delivered function target opcode signature values

  module _ (conversion : ℕ → M ℕ)
      (keeps : (cs : ℕ → ℕ) (o : ℕ) → Keeps cs gs ws (conversion o)) where
    -- Where `malloc` gives `array`, the last call sends `array`.
    pub send_array-Sent :
        (is_counted : ℕ → Bool) (function : String) (target opcode jargs : ℕ) (signature : List ℕ)
        → Triple
            (λ w. Calm bs gs ws w × Supplies array w)
            (send_array conversion is_counted function target opcode jargs signature)
            (λ _. Sent (Call.wayland function (target ∷ opcode ∷ array ∷ [])))
            (Unsent array bs gs ws)
    unfolding send_array
    send_array-Sent is_counted function target opcode jargs signature =
        bind
          (weaken (λ w c. c) (λ p w h. h) (λ w e. kept e.0)
            (both {E' = Anything}
              (calmly (cleanup allocate-Owned (bind no_memory-Owned λ _. leave (λ w o. o)))
                (or_ends-Quiet throw_out_of_memory allocate-Quiet))
              (supplied array)))
          λ args. given λ e. filled args e
      where
        filled :
            (args : ℕ)
            → args ≡ array
            → Triple
                (Calm (plus args bs) gs ws)
                (do
                  result ← attempt (
                      arguments_from_java conversion jargs signature
                        (count_if is_counted signature))
                  return_if_pending
                  values ← written result
                  deliver function target opcode args signature values)
                (λ _. Sent (Call.wayland function (target ∷ opcode ∷ array ∷ [])))
                (Unsent array bs gs ws)
        filled args e = rw e (
            bind {Q = Converted signature}
              (attempted (
                arguments_from_java-Calm gs ws conversion keeps jargs signature
                  (count_if is_counted signature) (plus array bs)))
              (sent function target opcode signature))

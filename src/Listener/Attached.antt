-- ===== src/Listener/Attached.antt =====
-- server/listener.c: a destroy listener that is attached to a signal, and how it ends.
use wayland_java.Prelude.{
  ℕ, suc, ◌≡◌, sym, ap, ◌∙◌, true, false, none, some, [], ◌∷◌, arith, ◌==◌, has, erase,
}
use wayland_java.Errors.Mutex.{throw_illegal_state-Frame}
use wayland_java.Jni.{Call, done, World, update, static}
use wayland_java.Listener.{attach, add_to_signal, detach_listener, detach, listener_notify_func}

-- The listener `p` of an object is in a signal's list, and holds its block and its reference.
pub record IsAttached (w : World) (jlistener p : ℕ) : Type 0 where
  pub object : (jlistener == 0) ≡ false
  pub pointer : w.long_field (w.target jlistener) ≡ p
  pub block : (p == 0) ≡ false
  pub live : has p w.blocks ≡ true
  pub linked : (w.listeners p).linked ≡ true
  pub self : has (w.listeners p).self_ref w.globals ≡ true
  pub same : w.target (w.listeners p).self_ref ≡ w.target jlistener
  pub calm : w.pending ≡ none

-- The caller puts the listener into the list of a signal.
abbrev pub signal_add : ℕ → World → World
signal_add p w = record w {
  listeners = update w.listeners p (record (w.listeners p) { linked = true });
}

-- Nothing of a listener's state differs.
pub record IsSameButPending (w w' : World) : Type 0 where
  pub listeners : w'.listeners ≡ w.listeners
  pub blocks : w'.blocks ≡ w.blocks
  pub globals : w'.globals ≡ w.globals
  pub long_field : w'.long_field ≡ w.long_field
  pub fault : w'.fault ≡ w.fault

-- What addDestroyListener leaves behind when it succeeds is an attached listener.
pub add_to_signal-IsAttached :
    (jlistener p : ℕ) (w : World)
    → (jlistener == 0) ≡ false
    → w.pending ≡ none
    → (add_to_signal jlistener w).0 ≡ some p
    → IsAttached (signal_add p (add_to_signal jlistener w).1) jlistener p
unfolding add_to_signal attach has
add_to_signal-IsAttached jlistener p w j c h = ground arith

-- Detaching an attached listener gives back its block and its reference, clears the object's
-- pointer, adds no fault, and leaves the object ready to be attached again.
pub detach-releases :
    (jlistener p n : ℕ) (w : World)
    → IsAttached w jlistener p
    → w.outside w.log (Call.put_long_field jlistener 0) ≡ done n
    → ((detach jlistener w).1.blocks ≡ erase p w.blocks)
      × ((detach jlistener w).1.globals ≡ erase (w.listeners p).self_ref w.globals)
      × ((detach jlistener w).1.long_field (w.target jlistener) ≡ 0)
      × ((detach jlistener w).1.fault ≡ w.fault)
unfolding detach detach_listener
detach-releases jlistener p n w o a = (ground arith, ground arith, ground arith, ground arith)

-- A listener that is attached cannot be attached again, and the refusal changes none of its state.
pub add_to_signal-refuses :
    (jlistener p : ℕ) (w : World)
    → IsAttached w jlistener p
    → w.locked ≡ false
    → ((add_to_signal jlistener w).0 ≡ none) × IsSameButPending w (add_to_signal jlistener w).1
unfolding add_to_signal
add_to_signal-refuses jlistener p w o u =
    let f = throw_illegal_state-Frame w u in
    (
      ground arith,
      record {
        listeners = ground (arith, f.listeners);
        blocks = ground (arith, f.blocks);
        globals = ground (arith, f.globals);
        long_field = ground (arith, f.long_field);
        fault = ground (arith, f.fault);
      },
    )

-- A notification whose `onDestroy` returns.
module _ (p jlistener local n : ℕ) (w : World) (o : IsAttached w jlistener p)
    (a : w.outside w.log (Call.local_ref (w.listeners p).self_ref) ≡ done local) where
  abbrev pub notification : Call
  notification = Call.call_method (w.listeners p).self_ref (static "DestroyListener.onDestroy" w) []

  -- The world behind `onDestroy`.
  abbrev pub notified : World
  notified = record w {
    log = notification ∷ Call.local_ref (w.listeners p).self_ref ∷ w.log;
    target = update w.target (suc local) (w.target (w.listeners p).self_ref);
  }

  notified-IsAttached : IsAttached notified (suc local) p
  notified-IsAttached = record {
    object = ground arith;
    pointer = ground (arith, o.same);
    block = o.block;
    live = o.live;
    linked = o.linked;
    self = o.self;
    same = ground (arith, o.same);
    calm = o.calm;
  }

  notify-detach :
      w.outside (Call.local_ref (w.listeners p).self_ref ∷ w.log) notification ≡ done n
      → listener_notify_func p w ≡ detach (suc local) notified
  unfolding listener_notify_func
  notify-detach b = ground (arith, o.calm)

  -- A listener whose `onDestroy` returns is detached by the notification: its block and its
  -- reference are given back, its object's pointer is cleared, and no fault is added.
  pub notify-releases :
      (k : ℕ)
      → w.outside (Call.local_ref (w.listeners p).self_ref ∷ w.log) notification ≡ done n
      → w.outside notified.log (Call.put_long_field (suc local) 0) ≡ done k
      → ((listener_notify_func p w).1.blocks ≡ erase p w.blocks)
        × ((listener_notify_func p w).1.globals ≡ erase (w.listeners p).self_ref w.globals)
        × ((listener_notify_func p w).1.long_field (w.target jlistener) ≡ 0)
        × ((listener_notify_func p w).1.fault ≡ w.fault)
  notify-releases k b c =
      let (d, e, f, g) = detach-releases (suc local) p k notified notified-IsAttached c in
      let q = notify-detach b in
      let t : notified.target (suc local) ≡ w.target jlistener = ground (arith, o.same) in
      (
        ap (λ r. r.1.blocks) q ∙ d,
        ap (λ r. r.1.globals) q ∙ e,
        ap (λ r. r.1.long_field (w.target jlistener)) q
            ∙ ap (detach (suc local) notified).1.long_field (sym t)
            ∙ f,
        ap (λ r. r.1.fault) q ∙ g,
      )

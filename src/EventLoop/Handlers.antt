-- ===== src/EventLoop/Handlers.antt =====
-- server/event_loop.c: the life of an event source's handler.
use wayland_java.Prelude.{
  ℕ, suc, String, ◌≡◌, refl, ap, ◌∙◌, true, false, ◌||◌, not, Option, none, some, List, [], arith,
  ◌==◌, has, erase,
}
use wayland_java.EventLoop.{create_source_wrapper, add_source, event_handler_destroy}
use wayland_java.Jni.{
  Call, done, Handler, World, M, ◌>>◌, modify, update, call, sys, jni, allocate, free,
  new_global_ref, delete_global_ref, jni_ptr, wayland_ptr,
}

-- The handler `p` is linked in a loop's list, and holds its block and its reference.
pub record IsInstalled (w : World) (p : ℕ) : Type 0 where
  pub block : (p == 0) ≡ false
  pub live : has p w.blocks ≡ true
  pub linked : (w.handlers p).linked ≡ true
  pub self : has (w.handlers p).jhandler w.globals ≡ true

create_source_wrapper-IsInstalled :
    (loop source p jhandler method_id o : ℕ) (w : World)
    → (p == 0) ≡ false
    → has p w.blocks ≡ true
    → (create_source_wrapper loop source p jhandler method_id w).0 ≡ some o
    → IsInstalled (create_source_wrapper loop source p jhandler method_id w).1 p
unfolding create_source_wrapper new_global_ref jni_ptr call jni has
create_source_wrapper-IsInstalled loop source p jhandler method_id o w b l h = ground arith

-- A source that was added has its handler, in the block that `malloc` gave, installed.
pub add_source-IsInstalled :
    (loop jhandler : ℕ) (name : String) (arguments : List ℕ) (method_slot : String) (a o : ℕ)
    (w : World)
    → w.outside w.log Call.malloc ≡ done a
    → (add_source loop jhandler name arguments method_slot w).0 ≡ some o
    → IsInstalled (add_source loop jhandler name arguments method_slot w).1 (suc a)
unfolding add_source create_source_wrapper new_global_ref jni_ptr call jni allocate wayland_ptr sys
    has
add_source-IsInstalled loop jhandler name arguments method_slot a o w m h = ground arith

delete_global_ref-held :
    (r : ℕ) (w : World)
    → has r w.globals ≡ true
    → delete_global_ref r w ≡ (some tt, record w { globals = erase r w.globals })
unfolding delete_global_ref
delete_global_ref-held r w h = rw h refl

free-held :
    (p : ℕ) (w : World)
    → (p == 0) ≡ false
    → has p w.blocks ≡ true
    → free p w ≡ (some tt, record w { blocks = erase p w.blocks })
unfolding free
free-held p w b h = rw b (rw h refl)

-- The world behind the destruction of an installed handler.
abbrev pub uninstalled : ℕ → World → World
uninstalled p w = record w {
  blocks = erase p w.blocks;
  globals = erase (w.handlers p).jhandler w.globals;
  fault = w.fault || not (w.handlers p).linked;
  handlers = update w.handlers p (record (w.handlers p) { linked = false });
}

-- The steps behind the deletion of the reference.
abbrev unlink_and_free : ℕ → Handler → M (Unit {0})
unlink_and_free p h =
    modify (λ w. record w {
      fault = w.fault || not h.linked;
      handlers = update w.handlers p (record h { linked = false });
    })
    >> free p

destroy-uninstalled :
    (p : ℕ) (w : World) → IsInstalled w p → event_handler_destroy p w ≡ (some tt, uninstalled p w)
unfolding event_handler_destroy
destroy-uninstalled p w o =
    ap
      (λ r.
        let (a, u) = r in
        let q : Option (Unit {0}) × World = elim a [
          | none ↦ (none, u)
          | some _ ↦ unlink_and_free p (w.handlers p) u
        ] in
        q)
      (delete_global_ref-held (w.handlers p).jhandler w o.self)
    ∙ free-held p (record (uninstalled p w) { blocks = w.blocks }) o.block o.live

-- Destroying an installed handler gives back its block and its reference, takes it off the loop's
-- list, and adds no fault.
pub event_handler_destroy-releases :
    (p : ℕ) (w : World)
    → IsInstalled w p
    → ((event_handler_destroy p w).1.blocks ≡ erase p w.blocks)
      × ((event_handler_destroy p w).1.globals ≡ erase (w.handlers p).jhandler w.globals)
      × (((event_handler_destroy p w).1.handlers p).linked ≡ false)
      × ((event_handler_destroy p w).1.fault ≡ w.fault)
event_handler_destroy-releases p w o =
    let e = destroy-uninstalled p w o in
    (
      ap (λ r. r.1.blocks) e,
      ap (λ r. r.1.globals) e,
      rw e (ground arith),
      rw e (ground (arith, o.linked)),
    )

-- The world behind the Java call of a handler.
abbrev called : ℕ → World → World
called p w = (jni (Call.call_method (w.handlers p).jhandler (w.handlers p).mid []) w).1

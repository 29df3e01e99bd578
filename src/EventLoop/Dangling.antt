-- ===== src/EventLoop/Dangling.antt =====
-- server/event_loop.c: a source's handler when its Java object cannot be made.
use wayland_java.Prelude.{ℕ, suc, String, ◌≡◌, true, none, List, [], ◌∷◌, arith, has, erase}
use wayland_java.EventLoop.{create_source_wrapper, add_source}
use wayland_java.Jni.{
  Call, done, failed, World, call, ask, sys, jni, allocate, free, new_global_ref, jni_ptr, static,
  wayland_ptr, wayland_call,
}

-- The call of libwayland that adds the source, and the one that makes its Java object.
abbrev pub added : ℕ → ℕ → String → List ℕ → Call
added loop a name arguments = Call.wayland name (loop ∷ suc a ∷ arguments)

abbrev pub made : ℕ → ℕ → World → Call
made a s w =
    Call.new_object (static "EventLoop.EventSource.class" w)
      (static "EventLoop.EventSource.init_long_long" w) (suc s ∷ suc a ∷ [])

-- Where the Java object of a new source cannot be made, the function that adds the source fails
-- and frees the handler, but the freed handler's listener is still in the loop's list, and its
-- reference is still held.
pub add_source-dangles :
    (loop jhandler : ℕ) (name : String) (arguments : List ℕ) (method_slot : String) (a s r e : ℕ)
    (w : World)
    → w.outside w.log Call.malloc ≡ done a
    → w.outside (Call.malloc ∷ w.log) (added loop a name arguments) ≡ done s
    → w.outside (added loop a name arguments ∷ Call.malloc ∷ w.log) (Call.global_ref jhandler)
      ≡ done r
    → w.outside
        (Call.global_ref jhandler ∷ added loop a name arguments ∷ Call.malloc ∷ w.log)
        (made a s w)
      ≡ failed e
    → let u = (add_source loop jhandler name arguments method_slot w).1 in
      ((add_source loop jhandler name arguments method_slot w).0 ≡ none)
      × (u.blocks ≡ w.blocks)
      × (u.globals ≡ suc r ∷ w.globals)
      × ((u.handlers (suc a)).linked ≡ true)
unfolding add_source create_source_wrapper new_global_ref jni_ptr call jni allocate free
    wayland_call wayland_ptr sys ask has erase
add_source-dangles loop jhandler name arguments method_slot a s r e w h i j k =
    (ground arith, ground arith, ground arith, ground arith)

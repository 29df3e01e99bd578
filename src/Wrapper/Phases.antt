-- ===== src/Wrapper/Phases.antt =====
-- native_object_wrapper.c: the phases of a wrapper object, and wl_jni_object_wrapper_disowned.
use wayland_java.Prelude.{
  ℕ, ◌≡◌, Bool, true, false, none, some, arith, ◌==◌, if◌then◌else◌, has, erase,
}
use wayland_java.Errors.{throw_by_name}
use wayland_java.Jni.{Call, done, Wrapper, World}
use wayland_java.Wrapper.{release, disowned}

pub data Phase : Type 0 where
  empty : Phase
  held : (native : ℕ) → Phase
  owned_by : (native self_ref : ℕ) → Phase

abbrev pub phase_of : ℕ → Wrapper → Phase
phase_of p s =
    if p == 0
    then empty
    else if s.self_ref == 0
    then held s.native
    else owned_by s.native s.self_ref

-- The phase of the Java object behind a reference.
abbrev pub phase : ℕ → World → Phase
phase jwrapper w = let p = w.long_field (w.target jwrapper) in phase_of p (w.wrappers p)

-- A state in which the wrapper `p` of an object is linked to its native object's signal, and holds
-- its block and its reference.
pub record IsOwned (w : World) (jwrapper p : ℕ) : Type 0 where
  pub object : (jwrapper == 0) ≡ false
  pub pointer : w.long_field (w.target jwrapper) ≡ p
  pub block : (p == 0) ≡ false
  pub live : has p w.blocks ≡ true
  pub linked : (w.wrappers p).linked ≡ true
  pub referenced : ((w.wrappers p).self_ref == 0) ≡ false
  pub self : has (w.wrappers p).self_ref w.globals ≡ true
  pub calm : w.pending ≡ none

module _ (jwrapper p : ℕ) (w : World) (o : IsOwned w jwrapper p) where
  -- An owned wrapper that is disowned without destruction holds its pointer still, and has given
  -- up its link and its one reference; no fault is added.
  pub disowned-held :
      (phase jwrapper (disowned jwrapper false w).1 ≡ held (w.wrappers p).native)
      × (((disowned jwrapper false w).1.wrappers p).linked ≡ false)
      × ((disowned jwrapper false w).1.globals ≡ erase (w.wrappers p).self_ref w.globals)
      × ((disowned jwrapper false w).1.fault ≡ w.fault)
  unfolding disowned release
  disowned-held = (ground arith, ground arith, ground arith, ground arith)

  -- Disowned with destruction, where the field can be written, it is empty, off the list of its
  -- signal, and its block and its one reference are gone; no fault is added.
  pub disowned-empty :
      (n : ℕ)
      → w.outside w.log (Call.put_long_field jwrapper 0) ≡ done n
      → (phase jwrapper (disowned jwrapper true w).1 ≡ empty)
        × (((disowned jwrapper true w).1.wrappers p).linked ≡ false)
        × ((disowned jwrapper true w).1.blocks ≡ erase p w.blocks)
        × ((disowned jwrapper true w).1.globals ≡ erase (w.wrappers p).self_ref w.globals)
        × ((disowned jwrapper true w).1.fault ≡ w.fault)
  unfolding disowned release
  disowned-empty n a = (ground arith, ground arith, ground arith, ground arith, ground arith)

-- Disowning a wrapper object that is empty changes nothing, with destruction or without.
pub disowned_empty-idle :
    (jwrapper : ℕ) (destroy : Bool) (w : World)
    → (jwrapper == 0) ≡ false
    → w.pending ≡ none
    → phase jwrapper w ≡ empty
    → disowned jwrapper destroy w ≡ (some tt, w)
unfolding disowned
disowned_empty-idle jwrapper destroy w j c h = ground arith

-- Disowning a wrapper that is held and not owned leaves it held, and releases nothing.
pub disowned_held-refuses :
    (jwrapper n : ℕ) (destroy : Bool) (w : World)
    → (jwrapper == 0) ≡ false
    → w.pending ≡ none
    → phase jwrapper w ≡ held n
    → (phase jwrapper (disowned jwrapper destroy w).1 ≡ held n)
      × ((disowned jwrapper destroy w).1.blocks ≡ w.blocks)
      × ((disowned jwrapper destroy w).1.globals ≡ w.globals)
      × ((disowned jwrapper destroy w).1.fault ≡ w.fault)
unfolding disowned throw_by_name
disowned_held-refuses jwrapper n destroy w j c h =
    (ground arith, ground arith, ground arith, ground arith)

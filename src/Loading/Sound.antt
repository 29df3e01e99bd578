-- ===== src/Loading/Sound.antt =====
-- A table of lookups when it has run: the members that it fills, and what it leaves alone.
use text.Mathlib.TextEquality.{eq_iff}
use text.Mathlib.TextPositions.{eq_refl}
use wayland_java.Prelude.{
  ℕ, String, str_eq, ◌≡◌, refl, ◌≢◌, inl, inr, Bool, true, false, ◌&&◌, some, List, [], ◌∷◌, arith,
  Bool-cases,
}
use wayland_java.Jni.{World, Frame, static_in, static}
use wayland_java.Loading.{
  Lookup, given_class, class, loose_class, method, field, class_method, slot, look_up, run_lookups,
  slots, mem_str, is_loose, is_strict, is_well_ordered,
}
use wayland_java.Loading.Tables.{object_cache}

-- Every member of the list holds a pointer that is not NULL.
abbrev pub AllSet : List String → World → Type 0
AllSet [] w = Unit
AllSet (s ∷ ss) w = (static s w ≢ 0) × AllSet ss w

look_up-keeps :
    (cls : ℕ) (l : Lookup) (s : String) (w : World)
    → str_eq (slot l) s ≡ false
    → static s (look_up cls l w).1 ≡ static s w
unfolding look_up static_in
look_up-keeps cls (given_class t) s w h = ground arith
look_up-keeps cls (class t n) s w h = ground arith
look_up-keeps cls (loose_class t n) s w h = ground arith
look_up-keeps cls (method t o n g) s w h = ground arith
look_up-keeps cls (field t o n g) s w h = ground arith
look_up-keeps cls (class_method t c n g) s w h = ground arith

look_up-sets :
    (cls : ℕ) (l : Lookup) (w : World)
    → is_loose l ≡ false
    → (look_up cls l w).0 ≡ some tt
    → static (slot l) (look_up cls l w).1 ≢ 0
unfolding look_up static_in
look_up-sets cls (given_class t) w k h = ground (arith, eq_refl t)
look_up-sets cls (class t n) w k h = ground (arith, eq_refl t)
look_up-sets cls (loose_class t n) w k h = cc
look_up-sets cls (method t o n g) w k h = ground (arith, eq_refl t)
look_up-sets cls (field t o n g) w k h = ground (arith, eq_refl t)
look_up-sets cls (class_method t c n g) w k h = ground (arith, eq_refl t)

pub look_up-Frame : (cls : ℕ) (l : Lookup) (w : World) → Frame w (look_up cls l w).1
unfolding look_up
look_up-Frame cls (given_class t) w = ground arith
look_up-Frame cls (class t n) w = ground arith
look_up-Frame cls (loose_class t n) w = ground arith
look_up-Frame cls (method t o n g) w = ground arith
look_up-Frame cls (field t o n g) w = ground arith
look_up-Frame cls (class_method t c n g) w = ground arith

pub run_lookups-Frame : (cls : ℕ) (ls : List Lookup) (w : World) → Frame w (run_lookups cls ls w).1
unfolding run_lookups
run_lookups-Frame cls [] w = ground arith
run_lookups-Frame cls (l ∷ ls) w =
    ground (arith, look_up-Frame cls l w, run_lookups-Frame cls ls (look_up cls l w).1)

-- A member of the list differs from what is not in it.
mem_str-differs :
    (j k : String) (known : List String)
    → mem_str j known ≡ false
    → mem_str k known ≡ true
    → str_eq j k ≡ false
mem_str-differs j k known out into = elim (Bool-cases (str_eq j k)) [
  | inl same ↦ let e : j ≡ k = (eq_iff j k).0 same in cc
  | inr differ ↦ differ
]

-- The members in `known` keep their values.
run_lookups-keeps :
    (cls : ℕ) (s : String) (known : List String) (ls : List Lookup) (w : World)
    → is_well_ordered known ls ≡ true
    → mem_str s known ≡ true
    → static s (run_lookups cls ls w).1 ≡ static s w
unfolding run_lookups is_well_ordered
run_lookups-keeps cls s known [] w h m = refl
run_lookups-keeps cls s known (l ∷ ls) w h m = ground (
  arith,
  mem_str-differs (slot l) s known,
  look_up-keeps cls l s w,
  run_lookups-keeps cls s (slot l ∷ known) ls (look_up cls l w).1,
)

-- A strict and well ordered table that runs to its end has filled every member that it names, and
-- no row has overwritten another's.
pub run_lookups-AllSet :
    (cls : ℕ) (known : List String) (ls : List Lookup) (w : World)
    → is_well_ordered known ls ≡ true
    → is_strict ls ≡ true
    → (run_lookups cls ls w).0 ≡ some tt
    → AllSet (slots ls) (run_lookups cls ls w).1
unfolding run_lookups is_well_ordered is_strict slots
run_lookups-AllSet cls known [] w o t h = tt
run_lookups-AllSet cls known (l ∷ ls) w o t h = ground (
  arith,
  eq_refl (slot l),
  look_up-sets cls l w,
  run_lookups-keeps cls (slot l) (slot l ∷ known) ls (look_up cls l w).1,
  run_lookups-AllSet cls (slot l ∷ known) ls (look_up cls l w).1,
)

abbrev tables_in_order : Bool
tables_in_order = is_well_ordered [] object_cache && is_strict object_cache

object_cache-in_order : tables_in_order ≡ true
unfolding object_cache is_well_ordered is_strict
object_cache-in_order = refl

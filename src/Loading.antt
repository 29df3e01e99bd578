-- ===== src/Loading.antt =====
-- The lookups of classes, fields and methods that fill the static structs of the sources: each
-- `initializeJNI` and the object cache of wayland-jni.c is a table of these, run in order up to
-- the first that fails.
pub mod Tables
pub mod Sound
pub mod Initializers
use wayland_java.Prelude.{
  ℕ, String, str_eq, Bool, true, false, ◌&&◌, ◌||◌, not, Option, none, some, List, [], ◌∷◌,
}
use wayland_java.Jni.{
  Call, M, pure, fail, or_else, attempt, gets, ◌>>=◌, ◌>>◌, return_if_pending, call_ptr, jni_ptr,
  static, set_static,
}

-- `slot` is the struct member that the lookup assigns, `owner` the member that holds the class.
pub data Lookup : Type 0 where
  -- `slot = NewGlobalRef(cls)` for the class that the function was given
  given_class : (slot : String) → Lookup
  -- `cls = FindClass(name)`, `slot = NewGlobalRef(cls)`
  class : (slot name : String) → Lookup
  -- the same with one check, for a pending exception, behind both calls
  loose_class : (slot name : String) → Lookup
  method : (slot owner name signature : String) → Lookup
  field : (slot owner name signature : String) → Lookup
  -- `cls = FindClass(class_name)`, `slot = GetMethodID(cls, name, signature)`
  class_method : (slot class_name name signature : String) → Lookup

abbrev pub slot : Lookup → String
slot (given_class s) = s
slot (class s _) = s
slot (loose_class s _) = s
slot (method s _ _ _) = s
slot (field s _ _ _) = s
slot (class_method s _ _ _) = s

-- A member is assigned what the call returned, NULL included, and NULL ends the function.
unfoldable pub assign : String → M ℕ → M (Unit {0})
assign s m = or_else (do set_static s (← m)) (set_static s 0 >> fail)

-- One lookup, in a function that was given the class `cls`.
unfoldable pub look_up : ℕ → Lookup → M (Unit {0})
unfolding assign call_ptr jni_ptr
look_up cls (given_class s) = assign s (call_ptr (Call.global_ref cls))
look_up cls (class s n) = do
  c ← jni_ptr (Call.find_class n)
  assign s (call_ptr (Call.global_ref c))
look_up cls (loose_class s n) = do
  c ← or_else (jni_ptr (Call.find_class n)) (set_static s 0 >> fail)
  r ← attempt (call_ptr (Call.global_ref c))
  set_static s (elim r [ none ↦ 0 | some v ↦ v ])
  return_if_pending
look_up cls (method s o n g) = do c ← gets (static o); assign s (jni_ptr (Call.get_method_id c n g))
look_up cls (field s o n g) = do c ← gets (static o); assign s (jni_ptr (Call.get_field_id c n g))
look_up cls (class_method s c n g) = do
  c' ← jni_ptr (Call.find_class c)
  assign s (jni_ptr (Call.get_method_id c' n g))

unfoldable pub run_lookups : ℕ → List Lookup → M (Unit {0})
run_lookups cls [] = pure tt
run_lookups cls (l ∷ ls) = look_up cls l >> run_lookups cls ls

-- Every member that a table assigns.
unfoldable pub slots : List Lookup → List String
slots [] = []
slots (l ∷ ls) = slot l ∷ slots ls

unfoldable pub mem_str : String → List String → Bool
mem_str k [] = false
mem_str k (j ∷ js) = str_eq j k || mem_str k js

-- The class member that a row reads.
unfoldable pub owner_of : Lookup → Option String
owner_of (method _ o _ _) = some o
owner_of (field _ o _ _) = some o
owner_of (given_class _) = none
owner_of (class _ _) = none
owner_of (loose_class _ _) = none
owner_of (class_method _ _ _ _) = none

abbrev pub is_loose : Lookup → Bool
is_loose (loose_class _ _) = true
is_loose _ = false

-- Each row checks what it assigns.
unfoldable pub is_strict : List Lookup → Bool
is_strict [] = true
is_strict (l ∷ ls) = not (is_loose l) && is_strict ls

-- No member is assigned twice, none of `known` is assigned again, and each row reads a class that
-- an earlier row has assigned or that stands in `known`.
unfoldable pub is_well_ordered : List String → List Lookup → Bool
unfolding mem_str owner_of
is_well_ordered known [] = true
is_well_ordered known (l ∷ ls) =
    not (mem_str (slot l) known)
    && (elim (owner_of l) [ none ↦ true | some o ↦ mem_str o known ])
    && is_well_ordered (slot l ∷ known) ls

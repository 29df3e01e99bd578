-- ===== src/References.antt =====
-- The registry of Java objects by native pointer (wayland-jni.c): `ptr_jobject_list` and the
-- functions wl_jni_register_reference, wl_jni_register_weak_reference,
-- wl_jni_unregister_reference and wl_jni_find_reference.
pub mod Pairs
pub mod Ownership
pub mod Registry
pub mod Bindings
pub mod Newest
pub mod Balanced
pub mod Keeps
use wayland_java.Prelude.{ℕ, true, false, Option, none, some, List, [], ◌∷◌, ◌==◌, if◌then◌else◌}
use wayland_java.Errors.{lock, unlock, throw_out_of_memory, throw_null_pointer}
use wayland_java.Jni.{
  Call, Pair, M, pure, fail, or_else, attempt, gets, ◌>>=◌, ◌>>◌, modify, jni, allocate, free,
  new_global_ref, new_weak_global_ref, delete_global_ref, delete_weak_global_ref, call_ptr,
}

-- The first pair of the list for a pointer, where `wl_list_for_each` stops.
unfoldable pub first_pair : ℕ → List Pair → Option Pair
first_pair p [] = none
first_pair p (q ∷ qs) = if q.ptr == p then some q else first_pair p qs

-- The list without that pair.
unfoldable pub remove_first : ℕ → List Pair → List Pair
remove_first p [] = []
remove_first p (q ∷ qs) = if q.ptr == p then qs else q ∷ remove_first p qs

-- `wl_list_insert` at the head, under the mutex.
unfoldable pub insert_pair : Pair → M (Unit {0})
unfolding lock unlock
insert_pair q = do lock; modify (λ w. record w { pairs = q ∷ w.pairs }); unlock

-- The block and the reference of a strong pair: wl_jni_register_reference behind the local reference.
unfoldable pub add_strong_pair : ℕ → ℕ → M ℕ
unfolding allocate new_global_ref free insert_pair
add_strong_pair native_ptr local = do
  pair ← or_else allocate (throw_out_of_memory >> fail)
  global ← or_else (new_global_ref local) (do throw_out_of_memory; free pair; fail)
  insert_pair (record { address = pair; ptr = native_ptr; jobj = global; is_weak = false })
  pure global

unfoldable pub local_or_throw : ℕ → M ℕ
unfolding call_ptr
local_or_throw jobj = or_else (call_ptr (Call.local_ref jobj)) (throw_null_pointer >> fail)

unfoldable pub register_reference : ℕ → ℕ → M ℕ
register_reference native_ptr jobj = do
  jni (Call.ensure_local_capacity 1)
  local ← local_or_throw jobj
  add_strong_pair native_ptr local

-- NewWeakGlobalRef answers NULL only with an exception, and none is pending before it: the test for
-- one behind it is a test of the call.
unfoldable pub register_weak_reference : ℕ → ℕ → M ℕ
unfolding allocate new_weak_global_ref free insert_pair
register_weak_reference native_ptr jobj = do
  pair ← or_else allocate (throw_out_of_memory >> fail)
  weak ← or_else (new_weak_global_ref jobj) (do free pair; fail)
  insert_pair (record { address = pair; ptr = native_ptr; jobj = weak; is_weak = true })
  pure weak

-- `delete_reference` of the pair at which the search for `native_ptr` stopped.
unfoldable pub delete_reference : ℕ → Pair → M (Unit {0})
unfolding delete_global_ref delete_weak_global_ref free
delete_reference native_ptr q = do
  if q.is_weak then delete_weak_global_ref q.jobj else delete_global_ref q.jobj
  modify (λ w. record w { pairs = remove_first native_ptr w.pairs })
  free q.address

unfoldable pub unregister_reference : ℕ → M (Unit {0})
unfolding lock unlock
unregister_reference native_ptr = do
  lock
  found ← gets (λ w. first_pair native_ptr w.pairs)
  elim found [ none ↦ pure tt | some q ↦ delete_reference native_ptr q ]
  unlock

-- The local reference of a pair's object, or NULL where the object is gone: then the pair goes too.
unfoldable pub resolve_pair : ℕ → Pair → M (Option ℕ)
unfolding call_ptr
resolve_pair native_ptr q = do
  r ← attempt (call_ptr (Call.local_ref q.jobj))
  elim r [ some obj ↦ pure (some obj) | none ↦ do delete_reference native_ptr q; pure none ]

unfoldable pub find_reference : ℕ → M ℕ
unfolding jni lock unlock
find_reference native_ptr = do
  jni (Call.ensure_local_capacity 1)
  lock
  found ← gets (λ w. first_pair native_ptr w.pairs)
  obj ← elim found [ none ↦ pure none | some q ↦ resolve_pair native_ptr q ]
  unlock
  elim obj [ none ↦ fail | some o ↦ pure o ]

-- ===== src/Loading/Initializers.antt =====
-- The `initializeJNI` functions, and the functions that call them where a class is needed early.
use wayland_java.Prelude.{ℕ, String, ◌≡◌, refl, true, some, List, [], ◌==◌, if◌then◌else◌}
use wayland_java.Errors.{throw_out_of_memory}
use wayland_java.Jni.{
  Call, World, M, pure, fail, or_else, attempt, gets, ◌>>=◌, ◌>>◌, return_if_pending, call_ptr,
  jni_ptr, static, set_static,
}
use wayland_java.Loading.{Lookup, run_lookups, slots, is_strict, is_well_ordered}
use wayland_java.Loading.Sound.{AllSet, run_lookups-AllSet}
use wayland_java.Loading.Tables.{
  interface_table, event_loop_table, resource_table, client_table, proxy_table,
  destroy_listener_table,
}

-- The classes whose `initializeJNI` stops at the first failed lookup.
pub data Component : Type 0 where
  event_loop_class resource_class client_class proxy_class destroy_listener_class : Component

abbrev pub lookups : Component → List Lookup
lookups event_loop_class = event_loop_table
lookups resource_class = resource_table
lookups client_class = client_table
lookups proxy_class = proxy_table
lookups destroy_listener_class = destroy_listener_table

unfoldable pub initialize_jni : Component → ℕ → M (Unit {0})
initialize_jni c cls = run_lookups cls (lookups c)

-- ensure_event_loop_object_cache and ensure_client_object_cache, by the class's member and name;
-- `cls` may be NULL. Their callers go on whatever happens here.
unfoldable pub ensure_class : Component → String → String → ℕ → M (Unit {0})
unfolding jni_ptr
ensure_class c member name cls = do
  known ← gets (static member)
  if known == 0
      then (do
        given ← if cls == 0 then jni_ptr (Call.find_class name) else pure cls
        attempt (initialize_jni c given)
        pure tt)
      else pure tt

unfoldable pub ensure_event_loop : ℕ → M (Unit {0})
unfolding ensure_class
ensure_event_loop cls =
    ensure_class event_loop_class "EventLoop.class" "org/freedesktop/wayland/server/EventLoop" cls

unfoldable pub ensure_client : ℕ → M (Unit {0})
unfolding ensure_class
ensure_client cls =
    ensure_class client_class "Client.class" "org/freedesktop/wayland/server/Client" cls

lookups-IsInOrder :
    (c : Component) → (is_well_ordered [] (lookups c) ≡ true) × (is_strict (lookups c) ≡ true)
unfolding is_well_ordered is_strict event_loop_table resource_table client_table proxy_table
    destroy_listener_table
lookups-IsInOrder event_loop_class = (refl, refl)
lookups-IsInOrder resource_class = (refl, refl)
lookups-IsInOrder client_class = (refl, refl)
lookups-IsInOrder proxy_class = (refl, refl)
lookups-IsInOrder destroy_listener_class = (refl, refl)

-- When one of these `initializeJNI`s gets to its end, every class, field and method that it looks
-- up is there; and its lookups stand in an order in which each reads only what an earlier one has
-- stored, and no two of them store to the same member.
pub initialize_jni-AllSet :
    (c : Component) (cls : ℕ) (w : World)
    → (initialize_jni c cls w).0 ≡ some tt
    → AllSet (slots (lookups c)) (initialize_jni c cls w).1
      × (is_well_ordered [] (lookups c) ≡ true)
unfolding initialize_jni
initialize_jni-AllSet c cls w h =
    let (o, s) = lookups-IsInOrder c in (run_lookups-AllSet cls [] (lookups c) w o s h, o)

-- Interface.initializeJNI. A NULL class with no exception pending is stored, and used.
unfoldable pub initialize_interface : ℕ → M (Unit {0})
unfolding call_ptr
initialize_interface cls = do
  r ← or_else (call_ptr (Call.global_ref cls)) (pure 0)
  set_static "Interface.class" r
  or_else return_if_pending (throw_out_of_memory >> fail)
  run_lookups cls interface_table

-- NativeObjectWrapper.initializeJNI.
unfoldable pub initialize_native_object_wrapper : ℕ → M (Unit {0})
unfolding jni_ptr
initialize_native_object_wrapper cls = do
  r ← or_else (jni_ptr (Call.get_field_id cls "data_ptr" "J")) (pure 0)
  set_static "NativeObjectWrapper.data_ptr" r
  return_if_pending

-- ===== src/Global.antt =====
-- server/global.c: a Global holds a global reference to its Java object as the user data of the
-- native object. The conversions of an interface and of a client are parameters.
pub mod Lifetime
use wayland_java.Prelude.{ℕ, none, some, [], ◌∷◌, ◌==◌, if◌then◌else◌}
use wayland_java.Errors.{throw_out_of_memory}
use wayland_java.Jni.{
  Call, M, pure, fail, or_else, attempt, gets, ◌>>=◌, ◌>>◌, modify, ask, jni, new_global_ref,
  delete_global_ref, return_if_pending, call_ptr, jni_ptr, static, set_static, get_long_field,
  set_long_field, new_local_ref, wayland_ptr, wayland_call, or_null,
}
use wayland_java.Loading.{assign}

-- wl_jni_global_from_java.
unfoldable pub global_from_java : ℕ → M ℕ
unfolding get_long_field
global_from_java jglobal = if jglobal == 0 then pure 0 else get_long_field jglobal

-- wl_jni_global_bind_func. ExceptionDescribe clears the exception that it prints.
unfoldable pub global_bind_func : (ℕ → M ℕ) → ℕ → ℕ → ℕ → ℕ → M (Unit {0})
unfolding new_local_ref jni
global_bind_func client_to_java native_client user_data version id = do
  attempt (do
    jglobal ← new_local_ref user_data
    jclient ← or_null (client_to_java native_client)
    return_if_pending
    bind_client ← gets (static "Global.bindClient")
    jni (Call.call_method jglobal bind_client (jclient ∷ version ∷ id ∷ [])))
  modify (λ w. record w { pending = none })

-- Global.createNative, with wl_jni_interface_from_java as a parameter.
unfoldable pub global_create_native : (ℕ → M ℕ) → ℕ → ℕ → ℕ → ℕ → M ℕ
unfolding get_long_field new_global_ref wayland_ptr delete_global_ref
global_create_native interface_from_java jglobal jdisplay jinterface version = do
  display ← get_long_field jdisplay
  return_if_pending
  interface ← or_null (interface_from_java jinterface)
  return_if_pending
  r ← or_else (new_global_ref jglobal) (throw_out_of_memory >> fail)
  or_else (wayland_ptr "wl_global_create" (display ∷ interface ∷ version ∷ r ∷ []))
      (do delete_global_ref r; throw_out_of_memory; fail)

-- Global.destroy. The `return` of the test for an exception has no semicolon, so what it returns
-- is the next line, which deletes the reference.
unfoldable pub global_destroy : ℕ → M (Unit {0})
unfolding global_from_java delete_global_ref wayland_call ask set_long_field
global_destroy jglobal = do
  global ← global_from_java jglobal
  threw ← gets (λ w. w.pending)
  elim threw [
    | some _ ↦ do
      user_data ← ask (Call.wayland "wl_global_get_user_data" (global ∷ []))
      delete_global_ref user_data
    | none ↦ do wayland_call "wl_global_destroy" (global ∷ []); set_long_field jglobal 0
  ]

-- Global.initializeJNI. A NULL class with no exception pending is stored, and used.
unfoldable pub initialize_global : ℕ → M (Unit {0})
unfolding call_ptr jni_ptr
initialize_global cls = do
  r ← or_else (call_ptr (Call.global_ref cls)) (pure 0)
  set_static "Global.class" r
  or_else return_if_pending (throw_out_of_memory >> fail)
  assign "Global.global_ptr" (jni_ptr (Call.get_field_id r "global_ptr" "J"))
  assign "Global.bindClient"
      (jni_ptr (Call.get_method_id r "bindClient" "(Lorg/freedesktop/wayland/server/Client;II)V"))

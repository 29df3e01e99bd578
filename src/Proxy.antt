-- ===== src/Proxy.antt =====
-- client/proxy.c: a Proxy has the pointer to its native object in `proxy_ptr`, and the native object
-- has a global reference to the Proxy as its user data. The conversion of an interface, and the
-- signature of a message of a native interface, are parameters.
pub mod Balance
pub mod Lifetime
use wayland_java.Prelude.{ℕ, true, none, some, List, [], ◌∷◌, ◌==◌, if◌then◌else◌}
use wayland_java.Arguments.Counts.{is_marshalled, is_proxy_ref}
use wayland_java.Arguments.Dispatched.{dispatch_message}
use wayland_java.Arguments.Sent.{send_array}
use wayland_java.Errors.{throw_out_of_memory, throw_null_pointer, throw_illegal_state}
use wayland_java.EventQueue.{event_queue_from_java}
use wayland_java.Jni.{
  Call, M, pure, fail, or_else, attempt, gets, ◌>>=◌, ◌>>◌, jni, new_global_ref, delete_global_ref,
  return_if_pending, static, get_long_field, set_long_field, new_local_ref, wayland_ptr,
  wayland_call, wayland_get, or_null, checked, require,
}

-- wl_jni_proxy_from_java.
unfoldable pub proxy_from_java : ℕ → M ℕ
unfolding get_long_field
proxy_from_java jproxy = if jproxy == 0 then pure 0 else get_long_field jproxy

-- wl_jni_proxy_to_java.
unfoldable pub proxy_to_java : ℕ → M ℕ
unfolding wayland_get new_local_ref
proxy_to_java proxy = do
  user_data ← wayland_get "wl_proxy_get_user_data" (proxy ∷ [])
  new_local_ref user_data

-- Proxy.createNative behind the creation of the native object, which may be NULL. After a failure
-- to set the field it goes on.
unfoldable pub bind_proxy : ℕ → ℕ → ℕ → M (Unit {0})
unfolding new_global_ref set_long_field delete_global_ref wayland_call
bind_proxy jproxy interface proxy = do
  self_ref ←
      or_else (new_global_ref jproxy)
        (do throw_out_of_memory; wayland_call "wl_proxy_destroy" (proxy ∷ []); fail)
  attempt (set_long_field jproxy proxy)
  threw ← gets (λ w. w.pending)
  elim threw [
    | some _ ↦ do delete_global_ref self_ref; wayland_call "wl_proxy_destroy" (proxy ∷ [])
    | none ↦ pure tt
  ]
  wayland_call "wl_proxy_add_dispatcher" (proxy ∷ interface ∷ self_ref ∷ [])

-- Proxy.createNative. After a failure of wl_proxy_create it goes on, with NULL.
unfoldable pub proxy_create_native : (ℕ → M ℕ) → ℕ → ℕ → ℕ → M (Unit {0})
unfolding proxy_from_java wayland_ptr bind_proxy
proxy_create_native interface_from_java jproxy jfactory jinterface = do
  factory ← proxy_from_java jfactory
  require factory throw_null_pointer
  interface ← checked (interface_from_java jinterface)
  require interface throw_null_pointer
  proxy ←
      or_else (wayland_ptr "wl_proxy_create" (factory ∷ interface ∷ []))
        (do throw_out_of_memory; pure 0)
  bind_proxy jproxy interface proxy

-- Proxy.marshal; `signature_at` gives the signature of a request of a native interface.
unfoldable pub marshal : (ℕ → M ℕ) → (ℕ → ℕ → List ℕ) → ℕ → ℕ → ℕ → M (Unit {0})
unfolding proxy_from_java jni send_array
marshal interface_from_java signature_at jproxy opcode jargs = do
  proxy ← proxy_from_java jproxy
  require proxy throw_illegal_state
  iface ← gets (static "Proxy.iface")
  jinterface ← jni (Call.get_object_field jproxy iface)
  interface ← checked (interface_from_java jinterface)
  require interface throw_null_pointer
  send_array proxy_from_java is_marshalled "wl_proxy_marshal_array" proxy opcode jargs
      (signature_at interface opcode)

-- Proxy.destroy.
unfoldable pub proxy_destroy : ℕ → M (Unit {0})
unfolding proxy_from_java wayland_get delete_global_ref wayland_call set_long_field
proxy_destroy jproxy = do
  proxy ← proxy_from_java jproxy
  if proxy == 0 then pure tt else (do
    user_data ← wayland_get "wl_proxy_get_user_data" (proxy ∷ [])
    delete_global_ref user_data
    wayland_call "wl_proxy_destroy" (proxy ∷ [])
    set_long_field jproxy 0)

-- Proxy.getID.
unfoldable pub proxy_get_id : ℕ → M ℕ
unfolding proxy_from_java wayland_get
proxy_get_id jproxy = do
  proxy ← proxy_from_java jproxy
  require proxy throw_illegal_state
  wayland_get "wl_proxy_get_id" (proxy ∷ [])

-- Proxy.setQueue.
unfoldable pub proxy_set_queue : ℕ → ℕ → M (Unit {0})
unfolding proxy_from_java event_queue_from_java wayland_call
proxy_set_queue jproxy jqueue = do
  proxy ← proxy_from_java jproxy
  require proxy throw_illegal_state
  queue ← or_null (event_queue_from_java jqueue)
  require queue throw_null_pointer
  wayland_call "wl_proxy_set_queue" (proxy ∷ queue ∷ [])

-- wl_jni_proxy_dispatcher: -1, here an early return, where an exception is pending at the end.
-- `length_at` and `array_at` are the memory behind the arguments, and `mid` the method of the event.
unfoldable pub proxy_dispatcher : (ℕ → ℕ) → (ℕ → ℕ × ℕ) → ℕ → ℕ → List ℕ → List ℕ → M ℕ
unfolding dispatch_message
proxy_dispatcher length_at array_at proxy mid signature args = do
  attempt (
      dispatch_message proxy_to_java "Proxy.listener" is_proxy_ref true length_at array_at proxy mid
        signature args)
  return_if_pending
  pure 0

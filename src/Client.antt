-- ===== src/Client.antt =====
-- server/client.c: a Client is a NativeObjectWrapper of a `wl_client`.
pub mod Start
pub mod Strings
pub mod Launched
pub mod Balance
use wayland_java.Prelude.{ℕ, true, [], ◌∷◌, ◌==◌, if◌then◌else◌}
use wayland_java.Errors.{throw_null_pointer, throw_illegal_argument, throw_errno}
use wayland_java.Jni.{
  Call, M, pure, fail, or_else, attempt, gets, ◌>>=◌, ◌>>◌, crash, return_if_pending, jni_ptr,
  static, get_long_field, wayland_ptr, wayland_call, wayland_get, or_null, checked, require,
}
use wayland_java.Listener.{link_listener, add_to_signal}
use wayland_java.Loading.Initializers.{ensure_client}
use wayland_java.References.{find_reference}
use wayland_java.Wrapper.{set_wrapper, get_data, set_data, owned, get_java_from_data}

-- wl_jni_client_from_java: NULL for a client that is destroyed, too.
unfoldable pub client_from_java : ℕ → M ℕ
unfolding get_data
client_from_java jclient = or_null (get_data jclient)

-- wl_jni_client_to_java: a native client that has no Java object is given a new one.
unfoldable pub client_to_java : ℕ → M ℕ
unfolding get_java_from_data ensure_client jni_ptr
client_to_java native_client = or_else (get_java_from_data native_client) (do
  attempt (ensure_client 0)
  cls ← gets (static "Client.class")
  init ← gets (static "Client.init_long")
  jni_ptr (Call.new_object cls init (native_client ∷ [])))

-- `wl_client_add_destroy_listener` with the wrapper's listener.
abbrev pub link_wrapper : ℕ → M (Unit {0})
link_wrapper p = set_wrapper p (λ s. record s { linked = true })

-- Client.setNative.
unfoldable pub set_native : ℕ → ℕ → M (Unit {0})
unfolding set_data owned
set_native jclient client_ptr = do
  require client_ptr throw_illegal_argument
  wrapper ← set_data jclient client_ptr
  attempt (owned jclient 0 true)
  return_if_pending
  link_wrapper wrapper

-- The wrapper of a new native client, which is owned by it; a failure destroys the native client.
unfoldable pub adopt_client : ℕ → ℕ → M ℕ
unfolding set_data owned wayland_call
adopt_client jclient native_client =
    or_else
      (do
        p ← set_data jclient native_client
        attempt (owned jclient 0 true)
        return_if_pending
        pure p)
      (do wayland_call "wl_client_destroy" (native_client ∷ []); fail)

-- Client.create.
unfoldable pub client_create : ℕ → ℕ → ℕ → M (Unit {0})
unfolding get_long_field wayland_ptr adopt_client
client_create jclient jdisplay fd = do
  display ← checked (get_long_field jdisplay)
  require display throw_null_pointer
  native_client ← or_else (wayland_ptr "wl_client_create" (display ∷ fd ∷ [])) (throw_errno >> fail)
  wrapper ← adopt_client jclient native_client
  link_wrapper wrapper

-- Client.flush.
unfoldable pub client_flush : ℕ → M (Unit {0})
unfolding client_from_java wayland_call
client_flush jclient = do
  native_client ← client_from_java jclient
  wayland_call "wl_client_flush" (native_client ∷ [])

-- Client.addDestroyListener.
unfoldable pub client_add_destroy_listener : ℕ → ℕ → M (Unit {0})
unfolding add_to_signal client_from_java
client_add_destroy_listener jclient jlistener = do
  require jlistener throw_null_pointer
  p ← add_to_signal jlistener
  native_client ← client_from_java jclient
  if native_client == 0 then (crash >> fail) else link_listener p

-- Client.getDisplay.
unfoldable pub get_display : ℕ → M ℕ
unfolding client_from_java wayland_get find_reference
get_display jclient = do
  native_client ← client_from_java jclient
  display ← wayland_get "wl_client_get_display" (native_client ∷ [])
  find_reference display

-- Client.destroy.
unfoldable pub client_destroy : ℕ → M (Unit {0})
unfolding client_from_java wayland_call
client_destroy jclient = do
  native_client ← client_from_java jclient
  if native_client == 0 then pure tt else wayland_call "wl_client_destroy" (native_client ∷ [])

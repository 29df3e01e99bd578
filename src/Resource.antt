-- ===== src/Resource.antt =====
-- server/resource.c: a Resource has the pointer to its native object in `resource_ptr`, and the native
-- object has a global reference to the Resource as its data. The conversion of an interface, and the
-- signature of an event of a native object, are parameters.
pub mod Errors
pub mod Handled
pub mod Lifetime
pub mod Listening
use wayland_java.Prelude.{ℕ, false, List, [], ◌∷◌, ltb, ◌==◌, if◌then◌else◌}
use wayland_java.Arguments.Counts.{is_posted, is_resource_ref}
use wayland_java.Arguments.Dispatched.{dispatch_message}
use wayland_java.Arguments.Sent.{send_array}
use wayland_java.Client.{client_to_java}
use wayland_java.Errors.{throw_out_of_memory, throw_null_pointer, throw_by_name, throw_errno}
use wayland_java.Jni.{
  M, pure, fail, or_else, attempt, ◌>>=◌, ◌>>◌, free, new_global_ref, delete_global_ref, crash,
  get_long_field, set_long_field, new_local_ref, wayland_ptr, wayland_call, wayland_get, or_null,
  checked, require,
}
use wayland_java.Listener.{link_listener, add_to_signal}
use wayland_java.Resource.Errors.{handle_resource_errors}
use wayland_java.Strings.{string_to_utf8}
use wayland_java.Wrapper.{get_data}

-- wl_jni_resource_from_java.
unfoldable pub resource_from_java : ℕ → M ℕ
unfolding get_long_field
resource_from_java jresource = if jresource == 0 then pure 0 else get_long_field jresource

-- wl_jni_resource_to_java.
unfoldable pub resource_to_java : ℕ → M ℕ
unfolding wayland_get new_local_ref
resource_to_java resource =
    if resource == 0
    then fail
    else (do jresource ← wayland_get "wl_resource.data" (resource ∷ []); new_local_ref jresource)

-- resource_destroyed, which libwayland calls when it destroys a resource.
unfoldable pub resource_destroyed : ℕ → M (Unit {0})
unfolding wayland_get delete_global_ref
resource_destroyed resource = if resource == 0 then pure tt else (do
  jresource ← wayland_get "wl_resource.data" (resource ∷ [])
  delete_global_ref jresource)

-- Resource.createNative. It goes on with a client that is NULL.
unfoldable pub resource_create_native : (ℕ → M ℕ) → ℕ → ℕ → ℕ → ℕ → ℕ → M ℕ
unfolding get_data new_global_ref delete_global_ref wayland_ptr wayland_call
resource_create_native interface_from_java jresource jclient jinterface version id = do
  client ← or_null (get_data jclient)
  if client == 0 then throw_null_pointer else pure tt
  interface ← checked (interface_from_java jinterface)
  require interface throw_null_pointer
  data_ref ← or_else (new_global_ref jresource) (throw_out_of_memory >> fail)
  resource ←
      or_else (wayland_ptr "wl_resource_create" (client ∷ interface ∷ version ∷ id ∷ []))
        (do delete_global_ref data_ref; throw_errno; fail)
  wayland_call "wl_resource_set_dispatcher" (resource ∷ interface ∷ data_ref ∷ [])
  pure resource

-- Resource.getClient.
unfoldable pub resource_get_client : ℕ → M ℕ
unfolding resource_from_java wayland_get client_to_java
resource_get_client jresource = do
  resource ← resource_from_java jresource
  require resource throw_null_pointer
  client ← wayland_get "wl_resource.client" (resource ∷ [])
  client_to_java client

-- Resource.getId.
unfoldable pub resource_get_id : ℕ → M ℕ
unfolding resource_from_java wayland_get
resource_get_id jresource = do
  resource ← resource_from_java jresource
  require resource throw_null_pointer
  wayland_get "wl_resource.id" (resource ∷ [])

-- Resource.addDestroyListener. `&resource->destroy_signal` of a NULL resource is followed.
unfoldable pub resource_add_destroy_listener : ℕ → ℕ → M (Unit {0})
unfolding add_to_signal resource_from_java
resource_add_destroy_listener jresource jlistener = do
  require jlistener throw_null_pointer
  p ← add_to_signal jlistener
  resource ← resource_from_java jresource
  if resource == 0 then (crash >> fail) else link_listener p

-- Resource.destroy: wl_resource_destroy calls resource_destroyed.
unfoldable pub resource_destroy : ℕ → M (Unit {0})
unfolding resource_from_java wayland_call resource_destroyed set_long_field
resource_destroy jresource = do
  resource ← resource_from_java jresource
  if resource == 0 then pure tt else (do
    wayland_call "wl_resource_destroy" (resource ∷ [])
    resource_destroyed resource
    set_long_field jresource 0)

-- The version that an event is there since; `atoi` is the C library's.
unfoldable pub since : (List ℕ → ℕ) → List ℕ → ℕ
since atoi signature = if atoi signature == 0 then 1 else atoi signature

-- Resource.postEvent; `signature_at` gives the signature of an event of a resource. It goes on
-- behind the exception for a version that is too low.
unfoldable pub resource_post_event : (List ℕ → ℕ) → (ℕ → ℕ → List ℕ) → ℕ → ℕ → ℕ → M (Unit {0})
unfolding resource_from_java wayland_get send_array since
resource_post_event atoi signature_at jresource opcode jargs = do
  resource ← resource_from_java jresource
  if resource == 0 then (crash >> fail) else pure tt
  version ← wayland_get "wl_resource_get_version" (resource ∷ [])
  if ltb version (since atoi (signature_at resource opcode))
      then throw_by_name "java.lang.UnsupportedOperationException"
      else pure tt
  send_array resource_from_java is_posted "wl_resource_post_event_array" resource opcode jargs
      (signature_at resource opcode)

-- Resource.postError. The message "" is 0 here.
unfoldable pub resource_post_error : ℕ → ℕ → ℕ → M (Unit {0})
unfolding resource_from_java string_to_utf8 wayland_call free
resource_post_error jresource code jmsg = do
  resource ← resource_from_java jresource
  msg ← checked (string_to_utf8 jmsg)
  wayland_call "wl_resource_post_error" (resource ∷ code ∷ msg ∷ [])
  free msg

-- wl_jni_resource_dispatcher: whatever happens, the exception that is left is handled.
unfoldable pub resource_dispatcher : (ℕ → ℕ) → (ℕ → ℕ × ℕ) → ℕ → ℕ → List ℕ → List ℕ → M ℕ
unfolding dispatch_message handle_resource_errors
resource_dispatcher length_at array_at resource mid signature args = do
  attempt (
      dispatch_message resource_to_java "Resource.data" is_resource_ref false length_at array_at
        resource mid signature args)
  handle_resource_errors resource

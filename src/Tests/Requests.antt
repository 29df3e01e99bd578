-- ===== src/Tests/Requests.antt =====
-- Proxies, resources, clients and interfaces on concrete worlds.
use wayland_java.Prelude.{
  ℕ, str_eq, ◌≡◌, refl, true, false, some, List, [], ◌∷◌, ◌==◌, if◌then◌else◌,
}
use wayland_java.Arguments.{arg_count_for_signature, arguments_from_java}
use wayland_java.Arguments.Balance.{Unsent, Sent}
use wayland_java.Arguments.Converted.{arguments_from_java-balanced}
use wayland_java.Arguments.Counts.{
  count_if, is_posted, is_marshalled, is_resource_ref, is_proxy_ref, is_dispatched, counts-agree,
}
use wayland_java.Arguments.Ownership.{holding}
use wayland_java.Client.Balance.{Unstarted, start_client-balanced}
use wayland_java.Client.Start.{start_client}
use wayland_java.Errors.Quiet.{IsClear}
use wayland_java.Interface.Native.{native_interface_from_java}
use wayland_java.Interface.Signature.{is_convertible}
use wayland_java.Jni.{
  Call, Answer, done, thrown, World, call, jni, Post, allocate, new_global_ref, get_long_field,
  set_long_field,
}
use wayland_java.Listener.{listener_from_java, attach, add_to_signal}
use wayland_java.Listener.Attached.{IsAttached}
use wayland_java.Proxy.{proxy_from_java, marshal}
use wayland_java.Proxy.Balance.{proxy_from_java-Keeps, array_of, marshal-balanced}
use wayland_java.References.Ownership.{Owned, plus}
use wayland_java.References.Registry.{Account}
use wayland_java.Resource.{
  resource_from_java, resource_create_native, resource_add_destroy_listener, resource_dispatcher,
}
use wayland_java.Resource.Errors.{handle_resource_errors}
use wayland_java.Resource.Handled.{
  IsHandled, handle_resource_errors-IsHandled, resource_dispatcher-IsClear,
}
use wayland_java.Resource.Lifetime.{IsDispatched, resource_create_native-balanced}
use wayland_java.Resource.Listening.{resource_add_destroy_listener-IsAttached}
use wayland_java.Samples.{start_world, nothing, start-Owned}
use wayland_java.Strings.Calm.{Calm}

-- Every object has the native pointer 3.
abbrev with_pointers : World
with_pointers = record start_world { long_field = λ n. 3 }

with_pointers-Owned : Owned with_pointers false nothing nothing nothing
with_pointers-Owned = record {
  blocks = start-Owned.blocks;
  globals = start-Owned.globals;
  weaks = start-Owned.weaks;
  solid = start-Owned.solid;
  safe = start-Owned.safe;
  mutex = start-Owned.mutex;
}

abbrev string_and_object : List ℕ
string_and_object = b's' ∷ b'?' ∷ b'o' ∷ []

arguments_from_java-balanced_example :
    Post
      (λ values. Calm (holding values string_and_object nothing) nothing nothing)
      (Account nothing nothing nothing)
      (arguments_from_java proxy_from_java 7 string_and_object 2 with_pointers)
arguments_from_java-balanced_example =
    arguments_from_java-balanced nothing nothing nothing with_pointers with_pointers-Owned refl
      proxy_from_java (λ cs o. proxy_from_java-Keeps o) 7 string_and_object 2

marshal-balanced_example :
    Post
      (λ _.
        Sent
          (array_of 7 with_pointers)
          nothing
          nothing
          nothing
          (Call.wayland "wl_proxy_marshal_array" (3 ∷ 1 ∷ array_of 7 with_pointers ∷ [])))
      (Unsent (array_of 7 with_pointers) nothing nothing nothing)
      (marshal
        (native_interface_from_java (λ p. "") (λ p. []) 1)
        (λ i o. string_and_object)
        7
        1
        8
        with_pointers)
marshal-balanced_example =
    marshal-balanced nothing nothing nothing with_pointers with_pointers-Owned 7 (λ n e z. refl)
      (λ p. "") (λ p. []) 0 (λ i o. string_and_object) 1 8

-- A request has thrown.
abbrev refused : World
refused = record start_world { pending = some (thrown 5) }

handle_resource_errors-IsHandled_example :
    Post (λ _. IsHandled 9) IsClear (handle_resource_errors 9 refused)
handle_resource_errors-IsHandled_example =
    handle_resource_errors-IsHandled 9 (thrown 5) refused refl

resource_dispatcher-IsClear_example :
    Post
      (λ _. IsClear)
      IsClear
      (resource_dispatcher (λ _. 3) (λ _. (0, 0)) 9 6 string_and_object (4 ∷ 5 ∷ []) start_world)
resource_dispatcher-IsClear_example =
    resource_dispatcher-IsClear (λ _. 3) (λ _. (0, 0)) 9 6 string_and_object (4 ∷ 5 ∷ [])
      start_world

counts-agree_example :
    (count_if is_posted string_and_object ≡ arg_count_for_signature string_and_object)
    × (count_if is_marshalled string_and_object ≡ arg_count_for_signature string_and_object)
    × (count_if (is_dispatched is_resource_ref) string_and_object
        ≡ arg_count_for_signature string_and_object)
    × (count_if (is_dispatched is_proxy_ref) string_and_object
        ≡ arg_count_for_signature string_and_object)
unfolding is_convertible
counts-agree_example = counts-agree string_and_object refl

-- Every call is answered by 6, and the user data is the reference made of 6.
abbrev keeping : List Call → Call → Answer
keeping past (Call.wayland n a) = if str_eq n "wl_proxy_get_user_data" then done 7 else done 6
keeping past _ = done 6

abbrev keeping_world : World
keeping_world = record start_world { outside = keeping }

start_client-balanced_example :
    Post
      (λ _. Account nothing nothing nothing)
      (Unstarted nothing nothing nothing)
      (start_client 5 7 8 9 true start_world)
start_client-balanced_example =
    start_client-balanced nothing nothing nothing start_world start-Owned 5 7 8 9 true

resource_create_native-balanced_example :
    Post
      (λ resource u.
        (r : ℕ) × Account nothing (plus r nothing) nothing u × IsDispatched 3 resource r u)
      (Account nothing nothing nothing)
      (resource_create_native
        (native_interface_from_java (λ p. "") (λ p. []) 1)
        7
        5
        4
        1
        2
        with_pointers)
resource_create_native-balanced_example =
    resource_create_native-balanced nothing nothing nothing with_pointers with_pointers-Owned 4
      (λ z. refl) (λ p. "") (λ p. []) 0 7 5 1 2

-- The resource 5 has a native pointer, and the listener none.
abbrev with_resource : World
with_resource = record start_world { long_field = λ n. if n == 5 then 3 else 0 }

listener_is_added : (resource_add_destroy_listener 5 7 with_resource).0 ≡ some tt
unfolding resource_add_destroy_listener resource_from_java get_long_field add_to_signal attach
    listener_from_java allocate new_global_ref set_long_field call jni
listener_is_added = refl

resource_add_destroy_listener-IsAttached_example :
    (p : ℕ) × IsAttached (resource_add_destroy_listener 5 7 with_resource).1 7 p
resource_add_destroy_listener-IsAttached_example =
    resource_add_destroy_listener-IsAttached 5 7 with_resource refl refl listener_is_added

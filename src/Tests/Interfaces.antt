-- ===== src/Tests/Interfaces.antt =====
-- Native interfaces and displays on concrete worlds.
use wayland_java.Prelude.{◌≡◌, refl, false, some, [], ◌∷◌, arith, count}
use wayland_java.ClientDisplay.{display_create_from_native}
use wayland_java.ClientDisplay.Balance.{
  IsDisconnected, IsNew, display_create_from_native-disconnects,
}
use wayland_java.Errors.{lock, unlock}
use wayland_java.Interface.Native.{release_interface}
use wayland_java.Interface.Native.Balance.{held_interface, release_interface-balanced}
use wayland_java.Jni.{
  NativeInterface, World, call, sys, jni, Post, allocate, new_global_ref, call_ptr, jni_ptr,
  set_long_field, wayland_ptr,
}
use wayland_java.References.{insert_pair, add_strong_pair, local_or_throw, register_reference}
use wayland_java.References.Bindings.{bindings}
use wayland_java.References.Ownership.{Owned}
use wayland_java.References.Pairs.{addresses, strong_refs, weak_refs}
use wayland_java.References.Registry.{Account}
use wayland_java.Samples.{start_world, nothing, start-Owned}
use wayland_java.ServerDisplay.{set_display_ptr, display_create, display_destroy}
use wayland_java.ServerDisplay.Registered.{opened, create-destroy}

-- A native interface at 9, with one event.
abbrev one_event : NativeInterface
one_event = record {
  name = 7;
  version = 1;
  methods = 6;
  requests = 8;
  method_messages = [];
  events = 5;
  event_methods = 10;
  event_messages = record { name = 2; signature = 3; types = 4 } ∷ [];
}

abbrev with_interface : World
with_interface = record start_world {
  blocks = 2 ∷ 3 ∷ 4 ∷ 5 ∷ 6 ∷ 7 ∷ 8 ∷ 10 ∷ 9 ∷ [];
  interfaces = λ n. one_event;
}

with_interface-Owned :
    Owned with_interface false (held_interface 9 one_event nothing) nothing nothing
unfolding count addresses strong_refs weak_refs
with_interface-Owned = record {
  blocks = λ a. omega arith;
  globals = λ a. refl;
  weaks = λ a. refl;
  solid = refl;
  safe = refl;
  mutex = refl;
}

release_interface-balanced_example :
    Post
      (λ _. Account nothing nothing nothing)
      (Account nothing nothing nothing)
      (release_interface 7 9 with_interface)
release_interface-balanced_example =
    release_interface-balanced nothing nothing nothing with_interface 7 9 with_interface-Owned

display_create_from_native-disconnects_example :
    Post
      (λ obj u. Account nothing nothing nothing u × IsNew 5 3 obj u)
      (λ u. Account nothing nothing nothing u × IsDisconnected 3 u)
      (display_create_from_native 5 3 start_world)
display_create_from_native-disconnects_example =
    display_create_from_native-disconnects nothing nothing nothing start_world start-Owned 5 3

display_is_registered : (register_reference 7 7 (opened start_world)).0 ≡ some 7
unfolding register_reference local_or_throw add_strong_pair insert_pair lock unlock allocate
    new_global_ref call_ptr call jni
display_is_registered = refl

pointer_is_set :
    (display_create 7 start_world).1.long_field ((display_create 7 start_world).1.target 7) ≡ 7
unfolding display_create set_display_ptr wayland_ptr sys register_reference local_or_throw
    add_strong_pair insert_pair lock unlock allocate new_global_ref call_ptr call jni jni_ptr
    set_long_field
pointer_is_set = refl

create-destroy_example :
    bindings 7 (display_destroy 7 (display_create 7 start_world).1).1.pairs
    ≡ bindings 7 start_world.pairs
create-destroy_example =
    create-destroy 7 6 7 7 start_world refl refl display_is_registered pointer_is_set

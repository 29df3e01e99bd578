-- ===== src/Tests/Structures.antt =====
-- The arguments, the wrappers, the listeners and the event sources on concrete worlds.
use wayland_java.Prelude.{
  ℕ, ◌≡◌, refl, true, false, some, List, [], ◌∷◌, ◌==◌, if◌then◌else◌, length, has, erase,
}
use wayland_java.Arguments.{nullable_argument, get_next_argument}
use wayland_java.Arguments.Received.{arguments_to_java-is_complete}
use wayland_java.Arguments.ToJava.{argument_to_java, arguments_to_java, is_complete}
use wayland_java.Errors.{lock, unlock, ensure_object_cache_with, ensure_object_cache}
use wayland_java.Jni.{World, static_in}
use wayland_java.Listener.{detach, listener_notify_func}
use wayland_java.Listener.Attached.{IsAttached, detach-releases, notify-releases}
use wayland_java.References.{first_pair, resolve_pair, find_reference}
use wayland_java.Samples.{start_world, registered}
use wayland_java.Strings.{string_from_utf8}
use wayland_java.Wrapper.{zeroed, disowned}
use wayland_java.Wrapper.Destroyed.{IsFresh, after_destroy, destroyed-keeps}
use wayland_java.Wrapper.Phases.{empty, held, phase, IsOwned, disowned-held, disowned-empty}

-- The structure of the object 7 stands in the block 2, with the reference 9.
abbrev native_half : World
native_half = record start_world {
  blocks = 2 ∷ [];
  globals = 9 ∷ [];
  long_field = λ n. if n == 7 then 2 else 0;
  target = λ n. if n == 9 then 7 else n;
}

abbrev owned_world : World
owned_world = record native_half {
  wrappers = λ n. record { native = 5; linked = true; destroyed_by_owner = false; self_ref = 9 };
}

owned_world-IsOwned : IsOwned owned_world 7 2
unfolding has
owned_world-IsOwned = record {
  object = refl;
  pointer = refl;
  block = refl;
  live = refl;
  linked = refl;
  referenced = refl;
  self = refl;
  calm = refl;
}

disowned-held_example :
    (phase 7 (disowned 7 false owned_world).1 ≡ held 5)
    × (((disowned 7 false owned_world).1.wrappers 2).linked ≡ false)
    × ((disowned 7 false owned_world).1.globals ≡ erase 9 (9 ∷ []))
    × ((disowned 7 false owned_world).1.fault ≡ false)
disowned-held_example = disowned-held 7 2 owned_world owned_world-IsOwned

disowned-empty_example :
    (phase 7 (disowned 7 true owned_world).1 ≡ empty)
    × (((disowned 7 true owned_world).1.wrappers 2).linked ≡ false)
    × ((disowned 7 true owned_world).1.blocks ≡ erase 2 (2 ∷ []))
    × ((disowned 7 true owned_world).1.globals ≡ erase 9 (9 ∷ []))
    × ((disowned 7 true owned_world).1.fault ≡ false)
disowned-empty_example = disowned-empty 7 2 owned_world owned_world-IsOwned 6 refl

abbrev fresh_world : World
fresh_world = record native_half { wrappers = λ n. record zeroed { native = 5 } }

fresh_world-IsFresh : IsFresh fresh_world 7 2 5
fresh_world-IsFresh = record {
  object = refl;
  pointer = refl;
  block = refl;
  wrapper = refl;
  calm = refl;
}

destroyed-keeps_example :
    (phase 7 (after_destroy 7 2 5 true fresh_world fresh_world-IsFresh) ≡ held 5)
    × ((after_destroy 7 2 5 true fresh_world fresh_world-IsFresh).blocks ≡ fresh_world.blocks)
    × ((after_destroy 7 2 5 true fresh_world fresh_world-IsFresh).globals ≡ fresh_world.globals)
destroyed-keeps_example = destroyed-keeps 7 2 5 true fresh_world fresh_world-IsFresh 6 refl

abbrev listening : World
listening = record native_half { listeners = λ n. record { linked = true; self_ref = 9 } }

listening-IsAttached : IsAttached listening 7 2
unfolding has
listening-IsAttached = record {
  object = refl;
  pointer = refl;
  block = refl;
  live = refl;
  linked = refl;
  self = refl;
  same = refl;
  calm = refl;
}

detach-releases_example :
    ((detach 7 listening).1.blocks ≡ erase 2 (2 ∷ []))
    × ((detach 7 listening).1.globals ≡ erase 9 (9 ∷ []))
    × ((detach 7 listening).1.long_field 7 ≡ 0)
    × ((detach 7 listening).1.fault ≡ false)
detach-releases_example = detach-releases 7 2 6 listening listening-IsAttached refl

notify-releases_example :
    ((listener_notify_func 2 listening).1.blocks ≡ erase 2 (2 ∷ []))
    × ((listener_notify_func 2 listening).1.globals ≡ erase 9 (9 ∷ []))
    × ((listener_notify_func 2 listening).1.long_field 7 ≡ 0)
    × ((listener_notify_func 2 listening).1.fault ≡ false)
notify-releases_example = notify-releases 2 7 6 6 listening listening-IsAttached refl 6 refl refl

-- A string, and an object that may be NULL.
abbrev string_object : List ℕ
string_object = b's' ∷ b'?' ∷ b'o' ∷ []

received :
    (arguments_to_java find_reference
      (λ p. 3)
      (λ p. (p, p))
      true
      (4 ∷ 5 ∷ [])
      string_object
      registered).0
    ≡ some (7 ∷ 7 ∷ [])
unfolding arguments_to_java argument_to_java find_reference first_pair resolve_pair lock unlock
    get_next_argument string_from_utf8 ensure_object_cache ensure_object_cache_with
    nullable_argument static_in
received = refl

arguments_to_java-is_complete_example :
    (length {A = ℕ} (7 ∷ 7 ∷ []) ≡ 2) × (is_complete (4 ∷ 5 ∷ []) string_object ≡ true)
arguments_to_java-is_complete_example =
    arguments_to_java-is_complete find_reference (λ p. 3) (λ p. (p, p)) true (4 ∷ 5 ∷ [])
      string_object (7 ∷ 7 ∷ []) registered received

-- ===== src/Tests/Globals.antt =====
-- A Global on a concrete world.
use wayland_java.Prelude.{ℕ, ◌≡◌, refl, false, [], ◌∷◌}
use wayland_java.Global.{global_create_native, global_destroy}
use wayland_java.Global.Lifetime.{global_destroy-keeps, IsGlobal, global_create_native-balanced}
use wayland_java.Interface.Native.{native_interface_from_java}
use wayland_java.Jni.{World, Post}
use wayland_java.References.Ownership.{Owned, plus}
use wayland_java.References.Registry.{Account}
use wayland_java.Samples.{start_world, nothing, start-Owned}

-- The native object of the Global 7 is at 3, and 9 is the reference that it was given.
abbrev with_global : World
with_global = record start_world { globals = 9 ∷ []; long_field = λ n. 3 }

global_destroy-keeps_example :
    ((global_destroy 7 with_global).1.globals ≡ 9 ∷ [])
    × ((global_destroy 7 with_global).1.long_field 7 ≡ 0)
global_destroy-keeps_example = global_destroy-keeps 7 6 with_global refl refl refl

-- The display 5 and the interface 4 have native pointers.
abbrev with_display : World
with_display = record start_world { long_field = λ n. n }

with_display-Owned : Owned with_display false nothing nothing nothing
with_display-Owned = record {
  blocks = start-Owned.blocks;
  globals = start-Owned.globals;
  weaks = start-Owned.weaks;
  solid = start-Owned.solid;
  safe = start-Owned.safe;
  mutex = start-Owned.mutex;
}

global_create_native-balanced_example :
    Post
      (λ global u. (r : ℕ) × Account nothing (plus r nothing) nothing u × IsGlobal 5 4 1 r global u)
      (Account nothing nothing nothing)
      (global_create_native (native_interface_from_java (λ p. "") (λ p. []) 1) 7 5 4 1 with_display)
global_create_native-balanced_example =
    global_create_native-balanced nothing nothing nothing with_display with_display-Owned 4
      (λ z. refl) (λ p. "") (λ p. []) 0 7 5 1

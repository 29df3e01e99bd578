-- ===== src/Tests/Registry.antt =====
-- The registry, the exceptions, the strings and the descriptors on concrete worlds.
use wayland_java.Prelude.{
  ℕ, suc, ◌^◌, ◌<◌, ◌≡◌, refl, ◌↔◌, true, false, some, [], ◌∷◌, arith, ◌==◌, if◌then◌else◌,
}
use wayland_java.Errors.{lock, unlock}
use wayland_java.Jni.{Call, done, jni, Post, static_in}
use wayland_java.Loading.{look_up, run_lookups, slots, is_well_ordered}
use wayland_java.Loading.Initializers.{client_class, lookups, initialize_jni, initialize_jni-AllSet}
use wayland_java.Loading.Sound.{AllSet}
use wayland_java.Loading.Tables.{client_table}
use wayland_java.References.{
  first_pair, insert_pair, add_strong_pair, local_or_throw, register_reference,
  register_weak_reference, unregister_reference, resolve_pair, find_reference,
}
use wayland_java.References.Balanced.{
  register-balanced, unregister-balanced, find-balanced, register-pushes, register-unregister,
  register-find,
}
use wayland_java.References.Bindings.{bindings, rest, Lists, Pushed}
use wayland_java.References.Newest.{
  unregister_reference-bindings, FoundNewest, find_reference-newest,
}
use wayland_java.References.Ownership.{Owned}
use wayland_java.References.Registry.{Account}
use wayland_java.Samples.{start_world, nothing, start-Owned, registered, registered-Owned}
use wayland_java.Shm.{create_tmp_file, map_target, int_size}
use wayland_java.Shm.Balance.{KeptOpen, int_size-exact}
use wayland_java.Shm.Descriptors.{Fds}
use wayland_java.Shm.Returned.{create_tmp_file-balanced, map_target-balanced}
use wayland_java.Strings.{string_to_utf8, string_to_default}
use wayland_java.Strings.Account.{Bytes, strings-balanced}

register-balanced_example :
    Owned (register_reference 5 7 start_world).1 false nothing nothing nothing
    × Owned (register_weak_reference 5 7 start_world).1 false nothing nothing nothing
register-balanced_example = register-balanced nothing nothing nothing start_world start-Owned 5 7

unregister-balanced_example :
    Owned (unregister_reference 5 registered).1 false nothing nothing nothing
unregister-balanced_example =
    unregister-balanced nothing nothing nothing registered registered-Owned 5

find-balanced_example : Owned (find_reference 5 registered).1 false nothing nothing nothing
find-balanced_example = find-balanced nothing nothing nothing registered registered-Owned 5

started : (register_reference 5 7 start_world).0 ≡ some 7
unfolding register_reference local_or_throw add_strong_pair insert_pair jni
started = refl

started_found : (find_reference 5 (register_reference 5 7 start_world).1).0 ≡ some 7
unfolding register_reference local_or_throw add_strong_pair insert_pair jni find_reference
    first_pair resolve_pair lock unlock
started_found = refl

register-unregister_example :
    bindings 5 (unregister_reference 5 (register_reference 5 7 start_world).1).1.pairs
    ≡ bindings 5 start_world.pairs
register-unregister_example = register-unregister 5 7 7 5 start_world refl started

register-find_example :
    let u = (register_reference 5 7 start_world).1 in
    (n : ℕ) × (u.outside (Call.ensure_local_capacity 1 ∷ u.log) (Call.local_ref 7) ≡ done n)
    × (7 ≡ suc n)
register-find_example = register-find 5 7 7 7 start_world refl started started_found

unregister_reference-bindings_example :
    bindings 5 (unregister_reference 5 registered).1.pairs
    ≡ (if 5 == 5 then rest (bindings 5 registered.pairs) else bindings 5 registered.pairs)
unregister_reference-bindings_example = unregister_reference-bindings 5 5 registered

register-pushes_example :
    Post (Pushed 5 []) (Lists []) (register_reference 5 7 start_world)
    × Post (Pushed 5 []) (Lists []) (register_weak_reference 5 7 start_world)
register-pushes_example = register-pushes 5 7 start_world refl

find_registered : (find_reference 5 registered).0 ≡ some 7
unfolding find_reference first_pair resolve_pair lock unlock
find_registered = refl

find_reference-newest_example :
    FoundNewest 5 registered 7 × ((find_reference 5 registered).1.pairs ≡ registered.pairs)
find_reference-newest_example = find_reference-newest 5 7 registered find_registered

strings-balanced_example :
    Post
      (Bytes nothing nothing nothing)
      (Account nothing nothing nothing)
      (string_to_utf8 8 start_world)
    × Post
        (Bytes nothing nothing nothing)
        (Account nothing nothing nothing)
        (string_to_default 8 start_world)
strings-balanced_example = strings-balanced nothing nothing nothing start_world start-Owned 8

start-Fds : Fds (4 ∷ []) nothing nothing nothing start_world
start-Fds = record { fds = refl; account = start-Owned }

create_tmp_file-balanced_example :
    Post
      (λ n. Fds (n ∷ 4 ∷ []) nothing nothing nothing)
      (Fds (4 ∷ []) nothing nothing nothing)
      (create_tmp_file start_world)
create_tmp_file-balanced_example =
    create_tmp_file-balanced (4 ∷ []) nothing nothing nothing start_world start-Fds

map_target-balanced_example :
    Post
      (KeptOpen (4 ∷ []) nothing nothing nothing 4 4096 true false)
      (Fds (4 ∷ []) nothing nothing nothing)
      (map_target 4 4096 true false start_world)
map_target-balanced_example =
    map_target-balanced (4 ∷ []) nothing nothing nothing start_world start-Fds 4 4096 true false

int_size-exact_example : (int_size 4096 ≡ 4096) ↔ (4096 < 2 ^ 31)
int_size-exact_example = int_size-exact 4096 (ground arith)

client_runs : (initialize_jni client_class 3 start_world).0 ≡ some tt
unfolding initialize_jni run_lookups client_table look_up static_in
client_runs = refl

initialize_jni-AllSet_example :
    AllSet (slots (lookups client_class)) (initialize_jni client_class 3 start_world).1
    × (is_well_ordered [] (lookups client_class) ≡ true)
initialize_jni-AllSet_example = initialize_jni-AllSet client_class 3 start_world client_runs

-- ===== src/Client/Balance.antt =====
-- server/client.c: the blocks of Client.startClient.
use wayland_java.Prelude.{ℕ, Bool, true, false, Option, none, some, List, [], ◌==◌, if◌then◌else◌}
use wayland_java.Client.Launched.{IsChild, IsBroken, Launched, launch-Launched}
use wayland_java.Client.Start.{free_all, launch, get_exec_path, start_program, start_client}
use wayland_java.Client.Strings.{held_all, free_all-Owned, collect-Owned}
use wayland_java.Errors.Quiet.{jni-Quiet, jni_ptr-Quiet}
use wayland_java.Jni.{
  Call, World, pure, fail, ◌>>◌, Post, Triple, bind, cleanup, value, leave, weaken, free, static,
}
use wayland_java.Loading.{Lookup, run_lookups}
use wayland_java.Loading.Initializers.{initialize_jni, ensure_class, ensure_client}
use wayland_java.Loading.Sound.{run_lookups-Frame}
use wayland_java.Loading.Tables.{client_table}
use wayland_java.References.Keeps.{Keeps, done-Keeps, pick, asked-Owned}
use wayland_java.References.Ownership.{
  Owned, plus, framed, jni-Owned, jni_ptr-Owned, gets-Owned, allocate-Owned, free-Owned,
}
use wayland_java.References.Registry.{no_memory-Owned, Account}
use wayland_java.Strings.Account.{string_to_default-Account}
use wayland_java.Strings.Calm.{plus_if, Calm, calmly, checked-Calm, test_calms}
use wayland_java.Strings.Held.{free_if, tried_Keeps}
use wayland_java.Strings.Quiet.{string_to_default-Quiet}

-- How startClient leaves early: with the account in order; where JNI is given the NULL of a class that
-- is not found, with the account in order but for what cleanup_arguments was to free; or never, in
-- the child, behind a `fork` that has answered 0, with `exit` as the last call.
pub data Unstarted (bs gs ws : ℕ → ℕ) (w : World) : Type 0 where
  kept : Account bs gs ws w → Unstarted bs gs ws w
  broken :
      (exec_path args : ℕ) (taken : List ℕ)
      → IsBroken (held_all taken (plus args (plus_if exec_path bs))) gs ws w
      → Unstarted bs gs ws w
  in_child : IsChild w → Unstarted bs gs ws w

module _ {bs gs ws : ℕ → ℕ} where
  run_lookups-Keeps : (cls : ℕ) (ls : List Lookup) → Keeps bs gs ws (run_lookups cls ls)
  run_lookups-Keeps cls ls = framed λ w _. run_lookups-Frame cls ls w

  ensure_client-Keeps : (cls : ℕ) → Keeps bs gs ws (ensure_client cls)
  unfolding ensure_client ensure_class initialize_jni
  ensure_client-Keeps cls = bind (gets-Owned (static "Client.class")) λ known.
      pick (known == 0)
        (bind
          (pick (cls == 0) (jni_ptr-Owned (Call.find_class "org/freedesktop/wayland/server/Client"))
            (done-Keeps cls))
          λ given. bind (tried_Keeps (run_lookups-Keeps given client_table)) λ _. done-Keeps tt)
        (done-Keeps tt)

  get_exec_path-Calm :
      (jfile : ℕ)
      → Triple
          (Calm bs gs ws)
          (get_exec_path jfile)
          (λ p. Calm (plus_if p bs) gs ws)
          (Account bs gs ws)
  unfolding get_exec_path
  get_exec_path-Calm jfile =
      bind
        (calmly (jni_ptr-Owned (Call.get_object_class jfile))
          (jni_ptr-Quiet (Call.get_object_class jfile)))
        λ cls.
          bind
            (calmly (jni_ptr-Owned (Call.get_method_id cls "getPath" "()Ljava/lang/String;"))
              (jni_ptr-Quiet (Call.get_method_id cls "getPath" "()Ljava/lang/String;")))
            λ mid.
              bind
                (calmly (jni-Owned (Call.call_method jfile mid []))
                  (jni-Quiet (Call.call_method jfile mid [])))
                λ jexec_path.
                  checked-Calm (string_to_default-Account bs gs ws jexec_path)
                    (string_to_default-Quiet jexec_path)

  -- The label `cleanup_arguments`.
  cleaned :
      (exec_path args : ℕ) (taken : List ℕ) (result : Option ℕ)
      → Triple {A = ℕ}
          (Launched (held_all taken (plus args (plus_if exec_path bs))) gs ws result)
          (elim result [
            | none ↦ fail
            | some jclient ↦ do free_all taken; free args; free exec_path; pure jclient
          ])
          (λ _. Account bs gs ws)
          (Unstarted bs gs ws)
  cleaned exec_path args taken none = leave (λ w h. in_child h)
  cleaned exec_path args taken (some jclient) =
      bind (free_all-Owned taken)
        λ _. bind (free-Owned args) λ _. bind (free_if exec_path) λ _. value jclient (λ w o. o)

  started :
      (jdisplay exec_path args : ℕ) (clear_environment : Bool) (taken : List ℕ) (complete : Bool)
      → Triple
          (Account (held_all taken (plus args (plus_if exec_path bs))) gs ws)
          (if complete then launch jdisplay exec_path args clear_environment else pure (some 0))
          (Launched (held_all taken (plus args (plus_if exec_path bs))) gs ws)
          (Unstarted bs gs ws)
  started jdisplay exec_path args clear_environment taken true =
      weaken (λ w o. o) (λ a w h. h) (λ w h. broken exec_path args taken h)
        (launch-Launched (held_all taken (plus args (plus_if exec_path bs))) gs ws jdisplay
          exec_path args clear_environment)
  started jdisplay exec_path args clear_environment taken false = value (some 0) (λ w o. o)

  start_program-Owned :
      (jdisplay exec_path jargs : ℕ) (clear_environment : Bool)
      → Triple
          (Account (plus_if exec_path bs) gs ws)
          (start_program jdisplay exec_path jargs clear_environment)
          (λ _. Account bs gs ws)
          (Unstarted bs gs ws)
  unfolding start_program
  start_program-Owned jdisplay exec_path jargs clear_environment =
      bind (asked-Owned (Call.get_array_length jargs)) λ nargs.
        bind
          (cleanup allocate-Owned
            (bind (free_if exec_path) λ _. bind no_memory-Owned λ _. leave (λ w o. kept o)))
          λ args. bind (collect-Owned jargs [] 0 nargs) λ r.
            bind (started jdisplay exec_path args clear_environment r.0 r.1)
              (cleaned exec_path args r.0)

  start_client-Owned :
      (cls jdisplay jfile jargs : ℕ) (clear_environment : Bool)
      → Triple
          (Account bs gs ws)
          (start_client cls jdisplay jfile jargs clear_environment)
          (λ _. Account bs gs ws)
          (Unstarted bs gs ws)
  unfolding start_client
  start_client-Owned cls jdisplay jfile jargs clear_environment =
      bind (tried_Keeps (ensure_client-Keeps cls)) λ _.
        bind (weaken (λ w o. o) (λ a w c. c) (λ w o. kept o) test_calms) λ _.
          bind (weaken (λ w c. c) (λ p w c. c.0) (λ w o. kept o) (get_exec_path-Calm jfile))
            λ exec_path. start_program-Owned jdisplay exec_path jargs clear_environment

-- From a balanced account and a free mutex, Client.startClient, whatever fails on the way, returns
-- with the account balanced: the path, the argument array and every string that it had converted
-- are freed. Otherwise it leaves early with the account balanced; or its last call was to find the
-- class of its IOException, in vain, and a fault is set, the account being in order but for that
-- fault and for the path, the array and the strings; or `fork` has been called and has answered 0,
-- and the last call is the `exit` of the child.
pub start_client-balanced :
    (bs gs ws : ℕ → ℕ) (w : World)
    → Owned w false bs gs ws
    → (cls jdisplay jfile jargs : ℕ) (clear_environment : Bool)
    → Post
        (λ _. Account bs gs ws)
        (Unstarted bs gs ws)
        (start_client cls jdisplay jfile jargs clear_environment w)
start_client-balanced bs gs ws w o cls jdisplay jfile jargs clear_environment =
    (start_client-Owned cls jdisplay jfile jargs clear_environment).apply w o

-- ===== src/Client/Launched.antt =====
-- server/client.c: the account behind the sockets and the fork of Client.startClient.
use Prim.Native.Nat.{bit_or}
use wayland_java.Prelude.{
  ℕ, ◌-◌, ◌/◌, ◌%◌, ◌^◌, String, ◌≡◌, refl, ap, ◌∙◌, Bool, true, false, Option, none, some, List,
  [], ◌∷◌, ◌++◌, arith, ◌==◌, if◌then◌else◌, erase,
}
use wayland_java.Arguments.Converted.{when_case}
use wayland_java.Client.Start.{
  throw_new, io_exception_name, open_sockets, run_child, run_parent, fork_client, launch,
}
use wayland_java.Errors.Answered.{Answers, Refused, jni_ptr_answered, sys_answered, beside}
use wayland_java.Errors.Caught.{IsLast, posts}
use wayland_java.Errors.Quiet.{Anything}
use wayland_java.Jni.{
  Call, done, by_name, World, pure, attempt, gets, ◌>>=◌, ◌>>◌, record_call, ask, sys, returns,
  leaves, Triple, bind, cleanup, value, total, attempted, weaken, both, close_fd, jni_ptr, static,
  wayland_call, or_null,
}
use wayland_java.References.Keeps.{Keeps}
use wayland_java.References.Ownership.{framed, jni_ptr-Owned}
use wayland_java.References.Registry.{Account}
use wayland_java.Strings.Held.{tried_Keeps, tried_null, got, thrown-Owned, set_fds}

-- `fork` was called, and answered 0.
abbrev pub IsForked : World → Type 0
IsForked w =
    (later : List Call) × (past : List Call) × (w.log ≡ later ++ Call.fork ∷ past)
    × (w.outside past Call.fork ≡ done 0)

-- The end of the child, which `fork` has told from the parent: `exit` is the last call.
abbrev pub IsChild : World → Type 0
IsChild w = IsForked w × IsLast (Call.wayland "exit" []) w

module _ (bs gs ws : ℕ → ℕ) where
  -- JNI was given the class that the last call did not find; apart from that fault the account is
  -- in order.
  abbrev pub IsBroken : World → Type 0
  IsBroken w =
      Account bs gs ws (record w { fault = false })
      × (w.fault ≡ true)
      × Refused (Call.find_class io_exception_name) w

  find_class-Refused :
      (name : String)
      → Triple
          (Account bs gs ws)
          (or_null (jni_ptr (Call.find_class name)))
          (λ cls w. Account bs gs ws w × ((cls == 0) ≡ true → Refused (Call.find_class name) w))
          IsBroken
  find_class-Refused name =
      cleanup
        (weaken (λ w o. (o, tt)) (λ a w (o, (n, h, e)). (o, λ z. absurd (ground (arith, e, z))))
          (λ w e. e)
          (both (jni_ptr-Owned (Call.find_class name)) (jni_ptr_answered (Call.find_class name))))
        (value 0 (λ w (o, r). (o, λ z. r)))

  throw_new-Owned :
      Triple (Account bs gs ws) (throw_new io_exception_name) (λ _. Account bs gs ws) IsBroken
  unfolding throw_new
  throw_new-Owned = bind (find_class-Refused io_exception_name) λ cls.
      when_case (cls == 0)
        (λ z. record {
          apply = λ w (o, r). leaves (
            record {
              blocks = o.blocks;
              globals = o.globals;
              weaks = o.weaks;
              solid = o.solid;
              safe = refl;
              mutex = o.mutex;
            },
            refl,
            r z,
          );
        })
        (λ _.
          weaken (λ w x. x.0) (λ a w o. o) (λ w e. e) (thrown-Owned (by_name io_exception_name)))

  sys-Owned : (c : Call) → Keeps bs gs ws (sys c)
  unfolding sys
  sys-Owned c = framed λ w _. ground arith

  close_fd-Owned : (fd : ℕ) → Keeps bs gs ws (close_fd fd)
  unfolding close_fd
  close_fd-Owned fd = bind (set_fds (erase fd)) λ _. sys-Owned (Call.close fd)

  open_sockets-Owned : Keeps bs gs ws open_sockets
  unfolding open_sockets
  open_sockets-Owned = bind (sys-Owned Call.socketpair) λ n.
      bind (set_fds (λ fds. n / 2 ^ 32 ∷ n % 2 ^ 32 ∷ fds))
        λ _. value (n / 2 ^ 32, n % 2 ^ 32) (λ w o. o)

  -- What `launch` returns.
  abbrev pub Launched : Option ℕ → World → Type 0
  Launched none = IsChild
  Launched (some jclient) = Account bs gs ws

  run_parent-Owned :
      (jdisplay parent_end child_end : ℕ)
      → Triple
          (Account bs gs ws)
          (run_parent jdisplay parent_end child_end)
          (λ _. Account bs gs ws)
          IsBroken
  unfolding run_parent
  run_parent-Owned jdisplay parent_end child_end =
      bind (tried_Keeps (close_fd-Owned child_end)) λ _.
        bind (cleanup (sys-Owned (Call.getfd parent_end)) (value (2 ^ 32 - 1) (λ w o. o)))
          λ flags. bind (tried_Keeps (sys-Owned (Call.setfd parent_end (bit_or flags 1)))) created
    where
      created :
          (set : Option ℕ)
          → Triple {A = ℕ}
              (Account bs gs ws)
              (elim set [
                | none ↦ do throw_new io_exception_name; pure 0
                | some _ ↦ do
                  cls ← gets (static "Client.class")
                  init ← gets (static "Client.init_display_int")
                  or_null (jni_ptr (Call.new_object cls init (jdisplay ∷ parent_end ∷ [])))
              ])
              (λ _. Account bs gs ws)
              IsBroken
      created none = bind (throw_new-Owned) λ _. value 0 (λ w o. o)
      created (some n) = bind (got (static "Client.class")) λ cls.
          bind (got (static "Client.init_display_int")) λ init.
            tried_null (jni_ptr-Owned (Call.new_object cls init (jdisplay ∷ parent_end ∷ [])))

  later_call :
      (c : Call) (w w' : World)
      → w'.log ≡ c ∷ w.log
      → w'.outside ≡ w.outside
      → IsForked w
      → IsForked w'
  later_call c w w' l o (later, past, h, a) =
      (c ∷ later, past, l ∙ ap (λ k. c ∷ k) h, ap (λ f. f past Call.fork) o ∙ a)

  wayland_call-IsForked :
      {E : World → Type 0} (name : String) (arguments : List ℕ)
      → Triple IsForked (wayland_call name arguments) (λ _. IsForked) E
  unfolding wayland_call ask
  wayland_call-IsForked name arguments = total λ w f. (
    tt,
    record_call w (Call.wayland name arguments),
    ground arith,
    later_call (Call.wayland name arguments) w (record_call w (Call.wayland name arguments)) refl
        refl f,
  )

  close_fd-IsForked :
      {E : World → Type 0} (fd : ℕ) → Triple IsForked (attempt (close_fd fd)) (λ _. IsForked) E
  unfolding close_fd sys
  close_fd-IsForked fd = record {
    apply = λ w f.
        returns (later_call (Call.close fd) w (close_fd fd w).1 (ground arith) (ground arith) f);
  }

  run_child-IsChild :
      (exec_path args parent_end child_end : ℕ) (clear_environment : Bool)
      → Triple IsForked
          (run_child exec_path args parent_end child_end clear_environment)
          (λ _. IsChild)
          IsBroken
  unfolding run_child
  run_child-IsChild exec_path args parent_end child_end clear_environment =
      bind (close_fd-IsForked parent_end) λ _. bind (cleared clear_environment) λ _.
        bind (wayland_call-IsForked "setenv WAYLAND_SOCKET" (child_end ∷ [])) λ _.
          bind (wayland_call-IsForked "execv" (exec_path ∷ args ∷ [])) λ _.
            weaken (λ w f. (f, tt)) (λ a w h. h) (λ w e. e.0)
              (both {E' = Anything} (wayland_call-IsForked {E = IsBroken} "exit" [])
                (posts "exit" []))
    where
      cleared :
          (b : Bool)
          → Triple IsForked
              (if b then wayland_call "clearenv" [] else pure tt)
              (λ _. IsForked)
              IsBroken
      cleared true = wayland_call-IsForked "clearenv" []
      cleared false = value tt (λ w p. p)

  fork_client-Launched :
      (jdisplay exec_path args : ℕ) (clear_environment : Bool) (ends : ℕ × ℕ)
      → Triple
          (Account bs gs ws)
          (fork_client jdisplay exec_path args clear_environment ends)
          Launched
          IsBroken
  unfolding fork_client
  fork_client-Launched jdisplay exec_path args clear_environment (parent_end, child_end) =
      bind
        (attempted {Q = Answered} (
          weaken (λ w o. o) (λ a w h. h) (λ w o. o)
            (beside (sys-Owned Call.fork) (sys_answered Call.fork))))
        forked
    where
      Answered : Option ℕ → World → Type 0
      Answered none w = Account bs gs ws w
      Answered (some n) w = Account bs gs ws w × Answers Call.fork n w

      zero_fork : (n : ℕ) (w : World) → (n == 0) ≡ true → Answers Call.fork n w → IsForked w
      zero_fork n w z (past, l, a) = ([], past, l, a ∙ ap done (ground arith))

      forked :
          (pid : Option ℕ)
          → Triple {A = Option ℕ}
              (Answered pid)
              (elim pid [
                | none ↦ do throw_new io_exception_name; pure (some 0)
                | some n ↦
                    if n == 0
                    then (run_child exec_path args parent_end child_end clear_environment
                        >> pure none)
                    else (do
                      jclient ← run_parent jdisplay parent_end child_end
                      pure (some jclient))
              ])
              Launched
              IsBroken
      forked none = bind (throw_new-Owned) λ _. value (some 0) (λ w o. o)
      forked (some n) =
          when_case (n == 0)
            (λ z.
              bind
                (weaken (λ w h. zero_fork n w z h.1) (λ a w h. h) (λ w h. h)
                  (run_child-IsChild exec_path args parent_end child_end clear_environment))
                λ _. value none (λ w h. h))
            (λ _.
              bind
                (weaken (λ w h. h.0) (λ a w o. o) (λ w h. h)
                  (run_parent-Owned jdisplay parent_end child_end))
                λ jclient. value (some jclient) (λ w o. o))

  pub launch-Launched :
      (jdisplay exec_path args : ℕ) (clear_environment : Bool)
      → Triple
          (Account bs gs ws)
          (launch jdisplay exec_path args clear_environment)
          Launched
          IsBroken
  unfolding launch
  launch-Launched jdisplay exec_path args clear_environment =
      bind (tried_Keeps open_sockets-Owned) opened
    where
      opened :
          (sockets : Option (ℕ × ℕ))
          → Triple {A = Option ℕ}
              (Account bs gs ws)
              (elim sockets [
                | none ↦ do throw_new io_exception_name; pure (some 0)
                | some ends ↦ fork_client jdisplay exec_path args clear_environment ends
              ])
              Launched
              IsBroken
      opened none = bind (throw_new-Owned) λ _. value (some 0) (λ w o. o)
      opened (some ends) = fork_client-Launched jdisplay exec_path args clear_environment ends

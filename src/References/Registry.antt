-- ===== src/References/Registry.antt =====
-- The functions of the registry (wayland-jni.c) on the account, step by step.
use wayland_java.Prelude.{
  ℕ, String, ◌≡◌, refl, ap, ◌∙◌, true, false, ◌||◌, Option, none, some, ◌∷◌, arith, ◌==◌,
  if◌then◌else◌, count, has, erase, has-pos_count, pos_count-has, count-erase,
}
use wayland_java.Errors.{
  lock, unlock, throw_out_of_memory, ensure_object_cache, throw_null_pointer,
  throw_illegal_argument, throw_illegal_state, throw_by_name, throw_errno,
}
use wayland_java.Errors.Mutex.{
  ensure_object_cache-Frame, throw_out_of_memory-Frame, throw_by_name-Frame,
  throw_null_pointer-Frame, throw_illegal_argument-Frame, throw_illegal_state-Frame,
  throw_errno-Frame, throw_out_of_memory_total, throw_class_total, throw_by_name_total,
  throw_errno_total,
}
use wayland_java.Jni.{
  Call, null_pointer, illegal_argument, illegal_state, Pair, World, pure, fail, gets, ◌>>◌, Frame,
  Post, returns, leaves, Triple, bind, cleanup, value, leave, total, attempted, call_ptr,
}
use wayland_java.References.{
  first_pair, remove_first, insert_pair, add_strong_pair, local_or_throw, register_reference,
  register_weak_reference, delete_reference, unregister_reference, resolve_pair, find_reference,
}
use wayland_java.References.Ownership.{
  Owned, plus, Holds, call_ptr-Frame, framed, call_ptr-Owned, jni-Owned, allocate-Owned,
  new_global_ref-Owned, new_weak_global_ref-Owned, framed_total, free-Owned,
}
use wayland_java.References.Pairs.{
  addresses, strong_refs, weak_refs, addresses-remove_first, strong_refs-remove_first,
  weak_refs-remove_first,
}

-- `delete_reference` of a pair takes its block and its one reference off the account, and the
-- pair off the list.
module _ (p : ℕ) (q : Pair) {bs gs ws : ℕ → ℕ} (w : World) (o : Owned w true bs gs ws)
    (h : first_pair p w.pairs ≡ some q) where
  held_address : has q.address w.blocks ≡ true
  held_address = ground (
    arith,
    o.blocks q.address,
    addresses-remove_first q.address p q w.pairs h,
    has-pos_count q.address w.blocks,
  )

  held_strong : q.is_weak ≡ false → has q.jobj w.globals ≡ true
  held_strong k = ground (
    arith,
    o.globals q.jobj,
    strong_refs-remove_first q.jobj p q w.pairs h,
    has-pos_count q.jobj w.globals,
  )

  held_weak : q.is_weak ≡ true → has q.jobj w.weaks ≡ true
  held_weak k = ground (
    arith,
    o.weaks q.jobj,
    weak_refs-remove_first q.jobj p q w.pairs h,
    has-pos_count q.jobj w.weaks,
  )

  solid_address : (q.address == 0) ≡ false
  solid_address = ground (arith, o.solid, pos_count-has q.address w.blocks, held_address)

  abbrev deleted : World
  deleted = record w {
    blocks = erase q.address w.blocks;
    globals = if q.is_weak then w.globals else erase q.jobj w.globals;
    weaks = if q.is_weak then erase q.jobj w.weaks else w.weaks;
    pairs = remove_first p w.pairs;
  }

  delete_reference-deleted : delete_reference p q w ≡ (some tt, deleted)
  unfolding delete_reference
  delete_reference-deleted = ground (arith, held_address, held_strong, held_weak, solid_address)

  deleted-Owned : Owned deleted true bs gs ws
  deleted-Owned = record {
    blocks = λ a. ground (
      arith,
      o.blocks a,
      addresses-remove_first a p q w.pairs h,
      count-erase a q.address w.blocks held_address,
    );
    globals = λ a. ground (
      arith,
      o.globals a,
      strong_refs-remove_first a p q w.pairs h,
      count-erase a q.jobj w.globals,
      held_strong,
    );
    weaks = λ a. ground (
      arith,
      o.weaks a,
      weak_refs-remove_first a p q w.pairs h,
      count-erase a q.jobj w.weaks,
      held_weak,
    );
    solid = ground (arith, o.solid, count-erase 0 q.address w.blocks held_address);
    safe = o.safe;
    mutex = o.mutex;
  }

module _ {bs gs ws : ℕ → ℕ} {E : World → Type 0} where
  pub lock-Owned : Triple (Holds false bs gs ws) lock (λ _. Holds true bs gs ws) E
  unfolding lock
  lock-Owned = total λ w o. (
    tt,
    record w { fault = w.fault || w.locked; locked = true },
    refl,
    record {
      blocks = o.blocks;
      globals = o.globals;
      weaks = o.weaks;
      solid = o.solid;
      safe = ground (arith, o.safe, o.mutex);
      mutex = refl;
    },
  )

  pub unlock-Owned : Triple (Holds true bs gs ws) unlock (λ _. Holds false bs gs ws) E
  unfolding unlock
  unlock-Owned = total λ w o. (
    tt,
    record w { locked = false },
    refl,
    record {
      blocks = o.blocks;
      globals = o.globals;
      weaks = o.weaks;
      solid = o.solid;
      safe = o.safe;
      mutex = refl;
    },
  )

  -- The pair takes over the block, and the reference of its kind.
  insert_pair-Owned :
      (q : Pair)
      → Triple
          (Holds false
            (plus q.address bs)
            (if q.is_weak then gs else plus q.jobj gs)
            (if q.is_weak then plus q.jobj ws else ws))
          (insert_pair q)
          (λ _. Holds false bs gs ws)
          E
  unfolding insert_pair addresses strong_refs weak_refs count
  insert_pair-Owned q = total λ w o. (
    tt,
    record w { pairs = q ∷ w.pairs; fault = w.fault || w.locked; locked = false },
    refl,
    record {
      blocks = λ a. ground (arith, o.blocks a);
      globals = λ a. ground (arith, o.globals a);
      weaks = λ a. ground (arith, o.weaks a);
      solid = o.solid;
      safe = ground (arith, o.safe, o.mutex);
      mutex = refl;
    },
  )

  delete_reference-Owned :
      (p : ℕ) (q : Pair)
      → Triple
          (λ w. (first_pair p w.pairs ≡ some q) × Holds true bs gs ws w)
          (delete_reference p q)
          (λ _. Holds true bs gs ws)
          E
  delete_reference-Owned p q = total λ w (h, o).
      (tt, deleted p q w o h, delete_reference-deleted p q w o h, deleted-Owned p q w o h)

  search-Owned :
      (p : ℕ)
      → Triple
          (Holds true bs gs ws)
          (gets (λ w. first_pair p w.pairs))
          (λ found w. (first_pair p w.pairs ≡ found) × Holds true bs gs ws w)
          E
  search-Owned p = total λ w o. (first_pair p w.pairs, w, refl, (refl, o))

-- The functions that throw, and the loading of the cache.
module _ {bs gs ws : ℕ → ℕ} {E : World → Type 0} where
  pub no_memory-Owned :
      Triple (Holds false bs gs ws) throw_out_of_memory (λ _. Holds false bs gs ws) E
  no_memory-Owned = framed_total throw_out_of_memory-Frame throw_out_of_memory_total

  pub null_pointer-Owned :
      Triple (Holds false bs gs ws) throw_null_pointer (λ _. Holds false bs gs ws) E
  unfolding throw_null_pointer
  null_pointer-Owned = framed_total throw_null_pointer-Frame (throw_class_total null_pointer)

  pub illegal_argument-Owned :
      Triple (Holds false bs gs ws) throw_illegal_argument (λ _. Holds false bs gs ws) E
  unfolding throw_illegal_argument
  illegal_argument-Owned =
      framed_total throw_illegal_argument-Frame (throw_class_total illegal_argument)

  pub illegal_state-Owned :
      Triple (Holds false bs gs ws) throw_illegal_state (λ _. Holds false bs gs ws) E
  unfolding throw_illegal_state
  illegal_state-Owned = framed_total throw_illegal_state-Frame (throw_class_total illegal_state)

  pub by_name-Owned :
      (n : String) → Triple (Holds false bs gs ws) (throw_by_name n) (λ _. Holds false bs gs ws) E
  by_name-Owned n = framed_total (λ w _. throw_by_name-Frame n w) (throw_by_name_total n)

  pub errno-Owned : Triple (Holds false bs gs ws) throw_errno (λ _. Holds false bs gs ws) E
  errno-Owned = framed_total throw_errno-Frame throw_errno_total

module _ {bs gs ws : ℕ → ℕ} where
  pub cache-Owned :
      Triple
        (Holds false bs gs ws)
        ensure_object_cache
        (λ _. Holds false bs gs ws)
        (Holds false bs gs ws)
  cache-Owned = framed ensure_object_cache-Frame

  -- A call leaves the list of pairs alone too.
  call_ptr-first_pair :
      (p : ℕ) (found : Option Pair) (c : Call)
      → Triple
          (λ w. (first_pair p w.pairs ≡ found) × Holds true bs gs ws w)
          (call_ptr c)
          (λ _ w. (first_pair p w.pairs ≡ found) × Holds true bs gs ws w)
          (λ w. (first_pair p w.pairs ≡ found) × Holds true bs gs ws w)
  call_ptr-first_pair p found c = record {
    apply = λ w x. go w x.0 (call_ptr c w) ((call_ptr-Owned c).apply w x.1) (call_ptr-Frame c w);
  }
    where
      go :
          (w : World)
          → first_pair p w.pairs ≡ found
          → (r : Option ℕ × World) → Post (λ _. Holds true bs gs ws) (Holds true bs gs ws) r
          → Frame w r.1
          → Post
              (λ _ u. (first_pair p u.pairs ≡ found) × Holds true bs gs ws u)
              (λ u. (first_pair p u.pairs ≡ found) × Holds true bs gs ws u)
              r
      go w h (some a, w') (returns o) f = returns (ap (first_pair p) f.pairs ∙ h, o)
      go w h (none, w') (leaves o) f = leaves (ap (first_pair p) f.pairs ∙ h, o)

-- The account with the mutex free.
module _ (bs gs ws : ℕ → ℕ) where
  abbrev pub Account : World → Type 0
  Account = Holds false bs gs ws

  add_strong_pair-Account : (p l : ℕ) → Triple Account (add_strong_pair p l) (λ _. Account) Account
  unfolding add_strong_pair
  add_strong_pair-Account p l =
      bind (cleanup allocate-Owned (bind no_memory-Owned λ _. leave (λ w o. o))) λ a.
        bind
          (cleanup (new_global_ref-Owned l)
            (bind no_memory-Owned λ _. bind (free-Owned a) λ _. leave (λ w o. o)))
          λ g.
            bind (insert_pair-Owned (record { address = a; ptr = p; jobj = g; is_weak = false }))
              λ _. value g (λ w o. o)

  pub register_reference-Account :
      (p obj : ℕ) → Triple Account (register_reference p obj) (λ _. Account) Account
  unfolding register_reference local_or_throw
  register_reference-Account p obj = bind (jni-Owned (Call.ensure_local_capacity 1)) λ _.
      bind
        (cleanup (call_ptr-Owned (Call.local_ref obj))
          (bind null_pointer-Owned λ _. leave (λ w o. o)))
        λ l. add_strong_pair-Account p l

  pub register_weak_reference-Account :
      (p obj : ℕ) → Triple Account (register_weak_reference p obj) (λ _. Account) Account
  unfolding register_weak_reference
  register_weak_reference-Account p obj =
      bind (cleanup allocate-Owned (bind no_memory-Owned λ _. leave (λ w o. o))) λ a.
        bind (cleanup (new_weak_global_ref-Owned obj) (bind (free-Owned a) λ _. leave (λ w o. o)))
          λ g.
            bind (insert_pair-Owned (record { address = a; ptr = p; jobj = g; is_weak = true }))
              λ _. value g (λ w o. o)

  delete_found :
      (p : ℕ) (found : Option Pair)
      → Triple
          (λ w. (first_pair p w.pairs ≡ found) × Holds true bs gs ws w)
          (elim found [ none ↦ pure tt | some q ↦ delete_reference p q ])
          (λ _. Holds true bs gs ws)
          Account
  delete_found p none = value tt (λ w o. o.1)
  delete_found p (some q) = delete_reference-Owned p q

  pub unregister_reference-Account :
      (p : ℕ) → Triple Account (unregister_reference p) (λ _. Account) Account
  unfolding unregister_reference
  unregister_reference-Account p =
      bind lock-Owned
        λ _. bind (search-Owned p) λ found. bind (delete_found p found) λ _. unlock-Owned

  -- The account when the object is gone: the pair goes with it.
  resolved :
      (p : ℕ) (q : Pair) (r : Option ℕ)
      → Triple {A = Option ℕ}
          (λ w. (first_pair p w.pairs ≡ some q) × Holds true bs gs ws w)
          (elim r [ some obj ↦ pure (some obj) | none ↦ do delete_reference p q; pure none ])
          (λ _. Holds true bs gs ws)
          Account
  resolved p q none = bind (delete_reference-Owned p q) λ _. value none (λ w o. o)
  resolved p q (some obj) = value (some obj) (λ w x. x.1)

  resolve_pair-Account :
      (p : ℕ) (found : Option Pair)
      → Triple {A = Option ℕ}
          (λ w. (first_pair p w.pairs ≡ found) × Holds true bs gs ws w)
          (elim found [ none ↦ pure none | some q ↦ resolve_pair p q ])
          (λ _. Holds true bs gs ws)
          Account
  unfolding resolve_pair
  resolve_pair-Account p none = value none (λ w x. x.1)
  resolve_pair-Account p (some q) =
      bind (attempted (call_ptr-first_pair p (some q) (Call.local_ref q.jobj))) (resolved p q)

  answer_found :
      (obj : Option ℕ)
      → Triple {A = ℕ} Account (elim obj [ none ↦ fail | some o ↦ pure o ]) (λ _. Account) Account
  answer_found none = leave (λ w o. o)
  answer_found (some x) = value x (λ w o. o)

  pub find_reference-Account : (p : ℕ) → Triple Account (find_reference p) (λ _. Account) Account
  unfolding find_reference
  find_reference-Account p = bind (jni-Owned (Call.ensure_local_capacity 1)) λ _.
      bind lock-Owned λ _.
        bind (search-Owned p) λ found.
          bind (resolve_pair-Account p found) λ obj. bind unlock-Owned λ _. answer_found obj

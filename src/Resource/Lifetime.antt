-- ===== src/Resource/Lifetime.antt =====
-- server/resource.c: the reference that a native resource holds.
use wayland_java.Prelude.{
  ℕ, suc, String, ◌≡◌, refl, sym, ap, ◌∙◌, subst, false, Option, none, some, List, [], ◌∷◌, arith,
  ◌==◌, if◌then◌else◌,
}
use wayland_java.Arguments.Converted.{when_case}
use wayland_java.Errors.{throw_out_of_memory, throw_null_pointer, throw_errno}
use wayland_java.Errors.Caught.{IsLast, posts}
use wayland_java.Errors.Mutex.{throw_null_pointer-Frame, throw_class_total}
use wayland_java.Errors.Quiet.{Anything}
use wayland_java.Interface.Native.{native_interface_from_java}
use wayland_java.Interface.Native.Made.{native_of, IsMade, made_interface}
use wayland_java.Jni.{
  Call, null_pointer, World, M, pure, fail, or_else, ◌>>=◌, ◌>>◌, Frame, Post, returns, Triple,
  bind, cleanup, value, leave, total, weaken, both, given, new_global_ref, delete_global_ref,
  get_long_field, wayland_ptr, wayland_call, or_null, checked, require,
}
use wayland_java.Proxy.Balance.{require-Keeps}
use wayland_java.References.Keeps.{test_pending, wayland_ptr-Owned, wayland_call-Owned}
use wayland_java.References.Ownership.{
  Owned, plus, Owned-Frame, new_global_ref-Owned, delete_global_ref-Owned,
}
use wayland_java.References.Registry.{no_memory-Owned, null_pointer-Owned, errno-Owned, Account}
use wayland_java.Resource.{resource_create_native}
use wayland_java.Wrapper.{wrapper_from_java, get_data}

-- The native resource is dispatched with the reference `r`, by the last call.
abbrev pub IsDispatched : (interface resource r : ℕ) → World → Type 0
IsDispatched interface resource r =
    IsLast (Call.wayland "wl_resource_set_dispatcher" (resource ∷ interface ∷ r ∷ []))

module _ (text_at : ℕ → String) (bytes_at : ℕ → List ℕ) (depth : ℕ) (bs gs ws : ℕ → ℕ)
    (jinterface interface : ℕ) where
  abbrev to_interface : ℕ → M ℕ
  to_interface = native_interface_from_java text_at bytes_at (suc depth)

  -- The native interface has been made, and is `interface`.
  abbrev Ready : World → Type 0
  Ready w = Account bs gs ws w × IsMade jinterface w × (native_of jinterface w ≡ interface)

  Ready-Frame : (w w' : World) → Frame w w' → Ready w → Ready w'
  Ready-Frame w w' f (o, m, e) = (
    Owned-Frame w f o,
    λ z. ap (λ n. n == 0) (same jinterface) ∙ m z,
    ap (λ n. if jinterface == 0 then 0 else n) (same jinterface) ∙ e,
  )
    where
      same : (j : ℕ) → w'.long_field (w'.target j) ≡ w.long_field (w.target j)
      same j = ap (λ f. f (w'.target j)) f.long_field ∙ ap (λ t. w.long_field (t j)) f.target

  got_client :
      {E : World → Type 0} (jclient : ℕ) → Triple Ready (or_null (get_data jclient)) (λ _. Ready) E
  unfolding get_data wrapper_from_java get_long_field
  got_client jclient = record { apply = λ w p. go w (get_data jclient w) (ground arith) p }
    where
      go :
          {E : World → Type 0} (w : World) (r : Option ℕ × World)
          → r.1 ≡ w
          → Ready w
          → Post {A = ℕ}
              (λ _. Ready)
              E
              (let (o, w') = r in
                let q : Option ℕ × World = elim o [ none ↦ (some 0, w') | some a ↦ (some a, w') ] in
                q)
      go w (none, w') e p = returns (subst Ready (sym e) p)
      go w (some a, w') e p = returns (subst Ready (sym e) p)

  warned : {E : World → Type 0} → Triple Ready throw_null_pointer (λ _. Ready) E
  unfolding throw_null_pointer
  warned = total λ w p. (
    tt,
    (throw_null_pointer w).1,
    λ i. (throw_class_total null_pointer w i, (throw_null_pointer w).1),
    Ready-Frame w (throw_null_pointer w).1 (throw_null_pointer-Frame w p.0.mutex) p,
  )

  converted :
      Triple Ready
        (checked (to_interface jinterface))
        (λ i w. Account bs gs ws w × (i ≡ interface))
        (Account bs gs ws)
  converted =
      bind
        (total λ w (o, m, e).
          (native_of jinterface w, w, made_interface text_at bytes_at depth jinterface w m, (o, e)))
        λ i. given λ e. bind test_pending λ _. value i (λ w o. (o, e))

  resource_create_native-Held :
      (jresource jclient version id : ℕ)
      → Triple Ready
          (resource_create_native to_interface jresource jclient jinterface version id)
          (λ resource w.
            (r : ℕ) × Account bs (plus r gs) ws w × IsDispatched interface resource r w)
          (Account bs gs ws)
  unfolding resource_create_native
  resource_create_native-Held jresource jclient version id = bind (got_client jclient) λ client.
      bind (when_case (client == 0) (λ _. warned) (λ _. value tt (λ w p. p)))
        λ _. bind converted λ i. given λ e. rest client i e
    where
      dispatched :
          (resource r : ℕ)
          → Triple
              (Account bs (plus r gs) ws)
              (do
                wayland_call "wl_resource_set_dispatcher" (resource ∷ interface ∷ r ∷ [])
                pure resource)
              (λ resource w.
                (r : ℕ) × Account bs (plus r gs) ws w × IsDispatched interface resource r w)
              (Account bs gs ws)
      dispatched resource r =
          let arguments : List ℕ = resource ∷ interface ∷ r ∷ [] in
          bind
            (weaken (λ w o. (o, tt)) (λ a w h. h) (λ w e. e.0)
              (both {E' = Anything} (wayland_call-Owned "wl_resource_set_dispatcher" arguments)
                (posts "wl_resource_set_dispatcher" arguments)))
            λ _. value resource (λ w (o, l). (r, o, l))

      rest :
          (client i : ℕ)
          → i ≡ interface
          → Triple
              (Account bs gs ws)
              (do
                require i throw_null_pointer
                data_ref ← or_else (new_global_ref jresource) (throw_out_of_memory >> fail)
                resource ←
                    or_else
                      (wayland_ptr "wl_resource_create" (client ∷ i ∷ version ∷ id ∷ []))
                      (do delete_global_ref data_ref; throw_errno; fail)
                wayland_call "wl_resource_set_dispatcher" (resource ∷ i ∷ data_ref ∷ [])
                pure resource)
              (λ resource w.
                (r : ℕ) × Account bs (plus r gs) ws w × IsDispatched interface resource r w)
              (Account bs gs ws)
      rest client i e = rw e (
          bind (require-Keeps interface null_pointer-Owned) λ _.
            bind
              (cleanup (new_global_ref-Owned jresource)
                (bind no_memory-Owned λ _. leave (λ w o. o)))
              λ r.
                bind
                  (cleanup
                    (wayland_ptr-Owned "wl_resource_create"
                      (client ∷ interface ∷ version ∷ id ∷ []))
                    (bind (delete_global_ref-Owned r) λ _. bind errno-Owned λ _. leave (λ w o. o)))
                  λ resource. dispatched resource r)

-- From a balanced account and a free mutex, where the interface has its native interface or is
-- null, creating a Resource's native object either succeeds, with just one more global reference
-- held, which its last call gives to the new native resource as the data of its dispatcher,
-- together with that native interface; or it fails with the account balanced.
pub resource_create_native-balanced :
    (bs gs ws : ℕ → ℕ) (w : World)
    → Owned w false bs gs ws
    → (jinterface : ℕ) → IsMade jinterface w
    → (text_at : ℕ → String) (bytes_at : ℕ → List ℕ) (depth jresource jclient version id : ℕ)
    → Post
        (λ resource u.
          (r : ℕ) × Account bs (plus r gs) ws u
          × IsDispatched (native_of jinterface w) resource r u)
        (Account bs gs ws)
        (resource_create_native
          (native_interface_from_java text_at bytes_at (suc depth))
          jresource
          jclient
          jinterface
          version
          id
          w)
resource_create_native-balanced bs gs ws w o jinterface m text_at bytes_at depth jresource jclient
      version id =
    (resource_create_native-Held text_at bytes_at depth bs gs ws jinterface (native_of jinterface w)
        jresource jclient version id).apply
      w (o, m, refl)

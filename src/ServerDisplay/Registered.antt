-- ===== src/ServerDisplay/Registered.antt =====
-- server/display.c: the registration of a Display, from its creation to its destruction.
use wayland_java.Prelude.{
  ℕ, suc, String, ◌≡◌, refl, sym, ap, ◌∙◌, Bool, true, false, Option, none, some, List, [], ◌∷◌,
  arith, ◌==◌, if◌then◌else◌,
}
use wayland_java.Jni.{
  Call, done, World, M, pure, attempt, ◌>>=◌, ◌>>◌, ask, sys, get_long_field, wayland_ptr,
  wayland_call, or_null,
}
use wayland_java.References.{register_reference, unregister_reference}
use wayland_java.References.Balanced.{register-unregister}
use wayland_java.References.Bindings.{bindings, rest}
use wayland_java.References.Newest.{unregister_reference-bindings}
use wayland_java.ServerDisplay.{display_from_java, set_display_ptr, display_create, display_destroy}

set_display_ptr-pairs :
    (jdisplay display : ℕ) (w : World) → (set_display_ptr jdisplay display w).1.pairs ≡ w.pairs
unfolding set_display_ptr
set_display_ptr-pairs jdisplay display w = ground arith

wayland_ptr-opened :
    (n : ℕ) (w : World)
    → w.outside w.log (Call.wayland "wl_display_create" []) ≡ done n
    → wayland_ptr "wl_display_create" [] w
      ≡ (some (suc n), record w { log = Call.wayland "wl_display_create" [] ∷ w.log })
unfolding wayland_ptr sys
wayland_ptr-opened n w a = ground arith

wayland_call-logged :
    (name : String) (arguments : List ℕ) (w : World)
    → wayland_call name arguments w
      ≡ (some tt, record w { log = Call.wayland name arguments ∷ w.log })
unfolding wayland_call ask
wayland_call-logged name arguments w = ground arith

-- What follows a part that has returned.
after :
    {A B : Type 0} (m : M A) (f : A → M B) (a : A) (w v : World)
    → m w ≡ (some a, v)
    → (m >>= f) w ≡ f a v
after {A} {B} m f a w v h =
    ap
      (λ r.
        let (o, u) = r in
        let q : Option B × World = elim o [ none ↦ (none, u) | some x ↦ f x u ] in q)
      h

or_null-some : (m : M ℕ) (a : ℕ) (w v : World) → m w ≡ (some a, v) → or_null m w ≡ (some a, v)
or_null-some m a w v h =
    ap
      (λ r.
        let (o, u) = r in
        let q : Option ℕ × World = elim o [ none ↦ (some 0, u) | some x ↦ (some x, u) ] in q)
      h

-- The worlds behind wl_display_create and behind wl_display_destroy.
abbrev pub opened : World → World
opened w = record w { log = Call.wayland "wl_display_create" [] ∷ w.log }

abbrev closed : ℕ → World → World
closed display w = record w { log = Call.wayland "wl_display_destroy" (display ∷ []) ∷ w.log }

module _ (jdisplay n : ℕ) (w : World)
    (a : w.outside w.log (Call.wayland "wl_display_create" []) ≡ done n) where
  display_create-pairs :
      (display_create jdisplay w).1.pairs ≡ (register_reference (suc n) jdisplay (opened w)).1.pairs
  unfolding display_create
  display_create-pairs =
      ap (λ r. r.1.pairs)
        (after (or_null (wayland_ptr "wl_display_create" []))
          (λ d. attempt (register_reference d jdisplay) >> set_display_ptr jdisplay d) (suc n) w
          (opened w)
          (or_null-some (wayland_ptr "wl_display_create" []) (suc n) w (opened w)
            (wayland_ptr-opened n w a)))
      ∙ set_display_ptr-pairs jdisplay (suc n) (register_reference (suc n) jdisplay (opened w)).1

then_set :
    (jdisplay : ℕ) (r : Option (Unit {0}) × World)
    → (let (o, v) = r in
        let q : Option (Unit {0}) × World = elim o [
          | none ↦ (none, v)
          | some _ ↦ set_display_ptr jdisplay 0 v
        ] in
        q).1.pairs
      ≡ r.1.pairs
then_set jdisplay (none, v) = refl
then_set jdisplay (some _, v) = set_display_ptr-pairs jdisplay 0 v

module _ (jdisplay display : ℕ) (w : World) (p : w.long_field (w.target jdisplay) ≡ display)
    (b : (display == 0) ≡ false) where
  -- What is left of Display.destroy for a native display.
  abbrev body : ℕ → M (Unit {0})
  body d =
      wayland_call "wl_display_destroy" (d ∷ [])
      >> (unregister_reference d >> set_display_ptr jdisplay 0)

  chosen : (c : Bool) (m n : M (Unit {0})) → c ≡ false → (if c then m else n) w ≡ n w
  chosen true m n h = absurd (ground (arith, h))
  chosen false m n h = refl

  from_java-display : display_from_java jdisplay w ≡ (some display, w)
  unfolding display_from_java get_long_field
  from_java-display = λ i. (some (p i), w)

  display_destroy-tested : display_destroy jdisplay w ≡ body display w
  unfolding display_destroy
  display_destroy-tested =
      after (display_from_java jdisplay) (λ d. if d == 0 then pure tt else body d) display w w
        from_java-display
      ∙ chosen (display == 0) (pure tt) (body display) b

  display_destroy-pairs :
      (display_destroy jdisplay w).1.pairs
      ≡ (unregister_reference display (closed display w)).1.pairs
  display_destroy-pairs =
      ap (λ r. r.1.pairs) display_destroy-tested
      ∙ ap (λ r. r.1.pairs)
          (after (wayland_call "wl_display_destroy" (display ∷ []))
            (λ _. unregister_reference display >> set_display_ptr jdisplay 0) tt w
            (closed display w) (wayland_call-logged "wl_display_destroy" (display ∷ []) w))
      ∙ then_set jdisplay (unregister_reference display (closed display w))

-- With the mutex free, when the native display is made, its registration succeeds and its pointer is
-- set: destroying the Display undoes its creation on the registry, in which every pointer has the
-- stack of references that it had.
pub create-destroy :
    (jdisplay n r j : ℕ) (w : World)
    → w.locked ≡ false
    → w.outside w.log (Call.wayland "wl_display_create" []) ≡ done n
    → (register_reference (suc n) jdisplay (opened w)).0 ≡ some r
    → (display_create jdisplay w).1.long_field ((display_create jdisplay w).1.target jdisplay)
      ≡ suc n
    → bindings j (display_destroy jdisplay (display_create jdisplay w).1).1.pairs
      ≡ bindings j w.pairs
create-destroy jdisplay n r j w l a e p =
    let u = (display_create jdisplay w).1 in
    let v = (register_reference (suc n) jdisplay (opened w)).1 in
    ap (bindings j) (display_destroy-pairs jdisplay (suc n) u p (ground arith))
    ∙ unregister_reference-bindings (suc n) j (closed (suc n) u)
    ∙ ap (λ q. if j == suc n then rest (bindings j q) else bindings j q)
        (display_create-pairs jdisplay n w a)
    ∙ sym (unregister_reference-bindings (suc n) j v)
    ∙ register-unregister (suc n) jdisplay r j (opened w) l e

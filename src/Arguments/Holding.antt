-- ===== src/Arguments/Holding.antt =====
-- The blocks that a list of arguments holds, when an argument comes to its end.
use wayland_java.Prelude.{
  ℕ, ◌≡◌, refl, ◌∙◌, Bool, true, false, ◌&&◌, not, List, [], ◌∷◌, ◌++◌, arith, ◌==◌, if◌then◌else◌,
}
use wayland_java.Arguments.{get_next_argument, is_owned}
use wayland_java.Arguments.Ownership.{holding}
use wayland_java.Jni.{World}
use wayland_java.References.Bindings.{rest}
use wayland_java.References.Ownership.{Owned, plus}

-- One more block for an argument of the type `t`, if it holds one.
abbrev pub is_held : ℕ → ℕ → Bool
is_held t arg = is_owned t && not (arg == 0)

abbrev pub held_for : ℕ → ℕ → (ℕ → ℕ) → ℕ → ℕ
held_for t arg bs = if is_held t arg then plus arg bs else bs

-- Where the walk along a signature stands behind some arguments.
abbrev pub behind : List ℕ → List ℕ → List ℕ
behind [] signature = signature
behind (_ ∷ args) signature = behind args (get_next_argument signature).1

pub behind-append :
    (args : List ℕ) (arg : ℕ) (start : List ℕ)
    → behind (args ++ arg ∷ []) start ≡ (get_next_argument (behind args start)).1
behind-append [] arg start = refl
behind-append (_ ∷ args) arg start = behind-append args arg (get_next_argument start).1

pub held_swap :
    (b : Bool) (x : ℕ) (c : Bool) (y : ℕ) (f : ℕ → ℕ) (a : ℕ)
    → (if b then plus x (if c then plus y f else f) else (if c then plus y f else f)) a
      ≡ (if c then plus y (if b then plus x f else f) else (if b then plus x f else f)) a
held_swap true x true y f a = omega arith
held_swap true x false y f a = refl
held_swap false x true y f a = refl
held_swap false x false y f a = refl

pub held_cong :
    (b : Bool) (x : ℕ) (f g : ℕ → ℕ) (a : ℕ)
    → f a ≡ g a
    → (if b then plus x f else f) a ≡ (if b then plus x g else g) a
held_cong true x f g a h = omega (arith, h)
held_cong false x f g a h = h

-- An argument at the end of a list holds its block besides those of the list.
pub holding-append :
    (args : List ℕ) (arg : ℕ) (start : List ℕ) (bs : ℕ → ℕ) (a : ℕ)
    → holding (args ++ arg ∷ []) start bs a
      ≡ held_for (get_next_argument (behind args start)).0.type arg (holding args start bs) a
holding-append [] arg start bs a = refl
holding-append (x ∷ args) arg start bs a =
    let (d, rest) = get_next_argument start in
    let t = (get_next_argument (behind args rest)).0.type in
    held_cong (is_held d.type x) x (holding (args ++ arg ∷ []) rest bs)
      (held_for t arg (holding args rest bs)) a (holding-append args arg rest bs a)
    ∙ held_swap (is_held d.type x) x (is_held t arg) arg (holding args rest bs) a

pub Owned-cong :
    {w : World} {l : Bool} {bs gs ws : ℕ → ℕ} (cs : ℕ → ℕ)
    → ((a : ℕ) → cs a ≡ bs a)
    → Owned w l bs gs ws
    → Owned w l cs gs ws
Owned-cong cs h o = record {
  blocks = λ a. omega (arith, o.blocks a, h a);
  globals = o.globals;
  weaks = o.weaks;
  solid = o.solid;
  safe = o.safe;
  mutex = o.mutex;
}

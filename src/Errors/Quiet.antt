-- ===== src/Errors/Quiet.antt =====
-- wayland-jni.c: a function that returns, from a world without a pending exception, leaves none.
use wayland_java.Prelude.{
  ℕ, suc, String, ◌≡◌, refl, ◌∙◌, Bool, true, false, ◌||◌, Option, none, some, List, [], ◌∷◌, arith,
  if◌then◌else◌,
}
use wayland_java.Errors.{
  lock, unlock, load_utf8, fill_cache, load_cache, ensure_object_cache_with, throw_at,
  ensure_object_cache,
}
use wayland_java.Jni.{
  Call, Throwable, World, M, pure, fail, or_else, attempt, gets, ◌>>◌, modify, call, ask, jni, Post,
  returns, leaves, Triple, bind, cleanup, value, leave, total, attempted, weaken, allocate,
  return_if_pending, call_ptr, jni_ptr, static, set_static,
}
use wayland_java.Loading.{
  Lookup, given_class, class, loose_class, method, field, class_method, assign, look_up,
  run_lookups,
}
use wayland_java.Loading.Tables.{object_cache}

-- What an early return leaves is not said.
abbrev pub Anything : World → Type 0
Anything _ = Unit {0}

abbrev pub IsClear : World → Type 0
IsClear w = w.pending ≡ none

abbrev pub Quiet : {A : Type 0} → M A → Type 0
Quiet m = Triple IsClear m (λ _. IsClear) Anything

-- What ends with an early return.
pub ending :
    {A B : Type 0} {Q : B → World → Type 0} (m : M A) → Triple Anything (m >> fail) Q Anything
ending {A} {B} {Q} m = record { apply = λ w _. go (m w) }
  where
    go :
        (r : Option A × World)
        → Post Q Anything (
            let (o, w') = r in
            let q : Option B × World = elim o [ none ↦ (none, w') | some a ↦ (none, w') ] in q)
    go (some a, w') = leaves tt
    go (none, w') = leaves tt

-- The test for an exception.
pub return_if_pending-IsClear : Triple Anything return_if_pending (λ _. IsClear) Anything
return_if_pending-IsClear = record { apply = λ w _. go w w.pending refl }
  where
    go :
        (w : World) (t : Option Throwable)
        → w.pending ≡ t
        → Post {A = Unit {0}}
            (λ _. IsClear)
            Anything
            (elim t [ none ↦ (some tt, w) | some t ↦ (none, w) ])
    go w none h = returns h
    go w (some t) h = leaves tt

-- What a caller tests.
pub tried : {A : Type 0} {m : M A} → Quiet m → Triple IsClear (attempt m) (λ _. Anything) Anything
tried q = attempted (weaken (λ w p. p) (λ a w q. tt) (λ w e. tt) q)

pub quiet :
    {A : Type 0} {m : M A}
    → ((w : World) → w.pending ≡ none → (a : A) → (m w).0 ≡ some a → (m w).1.pending ≡ none)
    → Quiet m
quiet {A} {m} k = record { apply = λ w p. go (m w) (k w p) }
  where
    go :
        (r : Option A × World)
        → ((a : A) → r.0 ≡ some a → IsClear r.1)
        → Post (λ _. IsClear) Anything r
    go (some a, w') h = returns (h a refl)
    go (none, w') h = leaves tt

-- A change that leaves the exception alone.
pub modify-Quiet :
    (f : World → World) → ((w : World) → (f w).pending ≡ w.pending) → Quiet (modify f)
modify-Quiet f k = record { apply = λ w p. returns (k w ∙ p) }

pub call-Quiet : (c : Call) → Quiet (call c)
unfolding call
call-Quiet c = quiet λ w p a h. ground arith

pub call_ptr-Quiet : (c : Call) → Quiet (call_ptr c)
unfolding call_ptr
call_ptr-Quiet c = quiet λ w p a h. ground arith

pub jni-Quiet : (c : Call) → Quiet (jni c)
unfolding jni
jni-Quiet c = quiet λ w p a h. ground arith

pub jni_ptr-Quiet : (c : Call) → Quiet (jni_ptr c)
unfolding jni_ptr
jni_ptr-Quiet c = quiet λ w p a h. ground arith

pub ask-Quiet : (c : Call) → Quiet (ask c)
unfolding ask
ask-Quiet c = quiet λ w p a h. ground arith

pub allocate-Quiet : Quiet allocate
unfolding allocate
allocate-Quiet = bind (call-Quiet Call.malloc) λ n.
    bind (modify-Quiet (λ w. record w { blocks = suc n ∷ w.blocks }) (λ w. refl))
      λ _. value (suc n) (λ w p. p)

pub gets-Quiet : {A : Type 0} (f : World → A) → Quiet (gets f)
gets-Quiet f = record { apply = λ w p. returns p }

-- A call whose failure ends the function.
pub or_ends-Quiet :
    {A : Type 0} {m : M A} (t : M (Unit {0})) → Quiet m → Quiet (or_else m (t >> fail))
or_ends-Quiet t q = cleanup q (ending t)

set_static-Quiet : (member : String) (v : ℕ) → Quiet (set_static member v)
set_static-Quiet member v =
    modify-Quiet (λ w. record w { statics = (member, v) ∷ w.statics }) (λ w. refl)

set_static-Anything :
    (member : String) (v : ℕ) → Triple Anything (set_static member v) (λ _. Anything) Anything
set_static-Anything member v = record { apply = λ w _. returns tt }

assign-Quiet : (member : String) {m : M ℕ} → Quiet m → Quiet (assign member m)
unfolding assign
assign-Quiet member q = cleanup (bind q (set_static-Quiet member)) (ending (set_static member 0))

look_up-Quiet : (cls : ℕ) (l : Lookup) → Quiet (look_up cls l)
unfolding look_up
look_up-Quiet cls (given_class s) = assign-Quiet s (call_ptr-Quiet (Call.global_ref cls))
look_up-Quiet cls (class s n) =
    bind (jni_ptr-Quiet (Call.find_class n))
      λ c. assign-Quiet s (call_ptr-Quiet (Call.global_ref c))
look_up-Quiet cls (loose_class s n) =
    bind (or_ends-Quiet (set_static s 0) (jni_ptr-Quiet (Call.find_class n))) λ c.
      bind {Q = λ _. Anything} (tried (call_ptr-Quiet (Call.global_ref c))) λ r.
        bind (set_static-Anything s (elim r [ none ↦ 0 | some v ↦ v ]))
          λ _. return_if_pending-IsClear
look_up-Quiet cls (method s o n g) =
    bind (gets-Quiet (static o)) λ c. assign-Quiet s (jni_ptr-Quiet (Call.get_method_id c n g))
look_up-Quiet cls (field s o n g) =
    bind (gets-Quiet (static o)) λ c. assign-Quiet s (jni_ptr-Quiet (Call.get_field_id c n g))
look_up-Quiet cls (class_method s c n g) =
    bind (jni_ptr-Quiet (Call.find_class c))
      λ c'. assign-Quiet s (jni_ptr-Quiet (Call.get_method_id c' n g))

pub run_lookups-Quiet : (cls : ℕ) (ls : List Lookup) → Quiet (run_lookups cls ls)
unfolding run_lookups
run_lookups-Quiet cls [] = value tt (λ w p. p)
run_lookups-Quiet cls (l ∷ ls) = bind (look_up-Quiet cls l) λ _. run_lookups-Quiet cls ls

-- The result of an attempt, as a fact about the world behind it.
abbrev ClearIf : {A : Type 0} → Option A → World → Type 0
ClearIf none = Anything
ClearIf (some a) = IsClear

load_utf8-Quiet : (no_memory : M (Unit {0})) → Quiet (load_utf8 no_memory)
unfolding load_utf8
load_utf8-Quiet no_memory = bind (jni_ptr-Quiet (Call.find_class "java/nio/charset/Charset")) λ cls.
    bind
      (jni_ptr-Quiet
        (Call.get_static_method_id cls "forName" "(Ljava/lang/String;)Ljava/nio/charset/Charset;"))
      λ mid. bind (jni_ptr-Quiet (Call.new_string_utf "UTF-8")) λ name.
        bind (jni_ptr-Quiet (Call.call_method cls mid (name ∷ []))) λ charset.
          bind {Q = ClearIf} (attempted (call_ptr-Quiet (Call.global_ref charset))) stored_or_end
  where
    stored_or_end :
        (r : Option ℕ)
        → Triple {A = Unit {0}}
            (ClearIf r)
            (elim r [
              | some v ↦ set_static "java.nio.charset.utf8" v
              | none ↦ do set_static "java.nio.charset.utf8" 0; no_memory; fail
            ])
            (λ _. IsClear)
            Anything
    stored_or_end none = bind (set_static-Anything "java.nio.charset.utf8" 0) λ _. ending no_memory
    stored_or_end (some v) = set_static-Quiet "java.nio.charset.utf8" v

fill_cache-Quiet : (no_memory : M (Unit {0})) → Quiet (fill_cache no_memory)
unfolding fill_cache
fill_cache-Quiet no_memory = bind (jni-Quiet (Call.ensure_local_capacity 3)) λ _.
    bind (run_lookups-Quiet 0 object_cache) λ _.
      bind (load_utf8-Quiet no_memory)
        λ _. modify-Quiet (λ w. record w { loaded = true }) (λ w. refl)

load_cache-Quiet : (no_memory : M (Unit {0})) → Quiet (load_cache no_memory)
unfolding load_cache lock unlock
load_cache-Quiet no_memory =
    bind (modify-Quiet (λ w. record w { fault = w.fault || w.locked; locked = true }) (λ w. refl))
      λ _.
        bind (gets-Quiet (λ w. w.loaded))
          λ again. bind {Q = ClearIf} (attempted (filled again)) finish
  where
    filled : (again : Bool) → Quiet (if again then pure tt else fill_cache no_memory)
    filled true = value tt (λ w p. p)
    filled false = fill_cache-Quiet no_memory

    finish :
        (r : Option (Unit {0}))
        → Triple {A = Unit {0}}
            (ClearIf r)
            (modify (λ w. record w { locked = false }) >> elim r [ some _ ↦ pure tt | none ↦ fail ])
            (λ _. IsClear)
            Anything
    finish none =
        bind {Q = λ _. Anything} (total λ w _. (tt, record w { locked = false }, refl, tt))
          λ _. leave (λ w p. tt)
    finish (some a) =
        bind (modify-Quiet (λ w. record w { locked = false }) (λ w. refl)) λ _. value tt (λ w p. p)

pub ensure_object_cache-Quiet : Quiet ensure_object_cache
unfolding ensure_object_cache ensure_object_cache_with
ensure_object_cache-Quiet = record {
  apply = λ w p. tested w.loaded w p ((load_cache-Quiet (throw_at 1)).apply w p);
}
  where
    tested :
        (b : Bool) (w : World)
        → IsClear w
        → Post (λ _. IsClear) Anything (load_cache (throw_at 1) w)
        → Post (λ _. IsClear) Anything (if b then (some tt, w) else load_cache (throw_at 1) w)
    tested true w p q = returns p
    tested false w p q = q

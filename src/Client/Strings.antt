-- ===== src/Client/Strings.antt =====
-- server/client.c: the strings that Client.startClient converts, and what it frees of them.
use wayland_java.Prelude.{ℕ, zero, suc, ◌+◌, Bool, true, false, Option, none, some, List, [], ◌∷◌}
use wayland_java.Client.Start.{free_all, collect}
use wayland_java.Jni.{Call, Throwable, World, pure, gets, ◌>>=◌, Triple, bind, value, or_null}
use wayland_java.References.Bindings.{rest}
use wayland_java.References.Ownership.{jni-Owned}
use wayland_java.References.Registry.{Account}
use wayland_java.Strings.{string_to_utf8}
use wayland_java.Strings.Calm.{plus_if}
use wayland_java.Strings.Held.{free_if, fetch_string, tried_Keeps, got}

-- The strings that are converted, besides what is held already.
abbrev pub held_all : List ℕ → (ℕ → ℕ) → ℕ → ℕ
held_all [] bs = bs
held_all (arg ∷ taken) bs = plus_if arg (held_all taken bs)

pub free_all-Owned :
    {bs gs ws : ℕ → ℕ} {E : World → Type 0} (taken : List ℕ)
    → Triple (Account (held_all taken bs) gs ws) (free_all taken) (λ _. Account bs gs ws) E
unfolding free_all
free_all-Owned [] = value tt (λ w o. o)
free_all-Owned (arg ∷ taken) = bind (free_if arg) λ _. free_all-Owned taken

pub collect-Owned :
    {bs gs ws : ℕ → ℕ} {E : World → Type 0} (jargs : ℕ) (taken : List ℕ) (i n : ℕ)
    → Triple
        (Account (held_all taken bs) gs ws)
        (collect jargs taken i n)
        (λ r. Account (held_all r.0 bs) gs ws)
        E
unfolding collect
collect-Owned jargs taken i zero = value (taken, true) (λ w o. o)
collect-Owned {bs} {gs} {ws} {E} jargs taken i (suc n) =
    bind (tried_Keeps (jni-Owned (Call.get_object_array_element jargs i)))
      (next (λ arg. collect-Owned jargs (arg ∷ taken) (i + 1) n))
  where
    tested :
        ((arg : ℕ)
          → Triple
              (Account (held_all (arg ∷ taken) bs) gs ws)
              (collect jargs (arg ∷ taken) (i + 1) n)
              (λ r. Account (held_all r.0 bs) gs ws)
              E)
        → (arg : ℕ) (threw : Option Throwable)
        → Triple {A = List ℕ × Bool}
            (Account (held_all (arg ∷ taken) bs) gs ws)
            (elim threw [
              | some _ ↦ pure (arg ∷ taken, false)
              | none ↦ collect jargs (arg ∷ taken) (i + 1) n
            ])
            (λ r. Account (held_all r.0 bs) gs ws)
            E
    tested rest arg (some t) = value (arg ∷ taken, false) (λ w o. o)
    tested rest arg none = rest arg

    next :
        ((arg : ℕ)
          → Triple
              (Account (held_all (arg ∷ taken) bs) gs ws)
              (collect jargs (arg ∷ taken) (i + 1) n)
              (λ r. Account (held_all r.0 bs) gs ws)
              E)
        → (element : Option ℕ)
        → Triple {A = List ℕ × Bool}
            (Account (held_all taken bs) gs ws)
            (elim element [
              | none ↦ pure (taken, false)
              | some jarg ↦ do
                arg ← or_null (string_to_utf8 jarg)
                threw ← gets (λ w. w.pending)
                elim threw [
                  | some _ ↦ pure (arg ∷ taken, false)
                  | none ↦ collect jargs (arg ∷ taken) (i + 1) n
                ]
            ])
            (λ r. Account (held_all r.0 bs) gs ws)
            E
    next rest none = value (taken, false) (λ w o. o)
    next rest (some jarg) =
        bind (fetch_string jarg) λ arg. bind (got (λ w. w.pending)) (tested rest arg)

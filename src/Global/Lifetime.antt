-- ===== src/Global/Lifetime.antt =====
-- server/global.c: the reference that a Global holds.
use wayland_java.Prelude.{
  ℕ, suc, String, ◌≡◌, refl, false, Option, none, some, List, [], ◌∷◌, arith, ◌==◌,
}
use wayland_java.Errors.{throw_out_of_memory}
use wayland_java.Errors.Answered.{Pointer, wayland_ptr_answered, beside}
use wayland_java.Global.{global_create_native, global_destroy}
use wayland_java.Interface.Native.{native_interface_from_java}
use wayland_java.Interface.Native.Made.{native_of, IsMade, made_interface}
use wayland_java.Jni.{
  Call, done, Throwable, World, M, fail, or_else, ◌>>=◌, ◌>>◌, Post, returns, leaves, Triple, bind,
  cleanup, leave, total, weaken, given, new_global_ref, delete_global_ref, return_if_pending,
  get_long_field, wayland_ptr, or_null,
}
use wayland_java.References.Keeps.{test_pending, wayland_ptr-Owned}
use wayland_java.References.Ownership.{Owned, plus, new_global_ref-Owned, delete_global_ref-Owned}
use wayland_java.References.Registry.{no_memory-Owned, Account}

-- Where no exception is pending, destroying a Global clears its pointer, if the field can be
-- written, but releases no reference: the one that its native object had as user data leaks.
pub global_destroy-keeps :
    (jglobal n : ℕ) (w : World)
    → (jglobal == 0) ≡ false
    → w.pending ≡ none
    → w.outside
        (Call.wayland "wl_global_destroy" (w.long_field (w.target jglobal) ∷ []) ∷ w.log)
        (Call.put_long_field jglobal 0)
      ≡ done n
    → ((global_destroy jglobal w).1.globals ≡ w.globals)
      × ((global_destroy jglobal w).1.long_field (w.target jglobal) ≡ 0)
unfolding global_destroy
global_destroy-keeps jglobal n w j c a = (ground arith, ground arith)

-- The native global that the last call has made, with `r` as its user data.
abbrev pub IsGlobal : (display interface version r global : ℕ) → World → Type 0
IsGlobal display interface version r global =
    Pointer (Call.wayland "wl_global_create" (display ∷ interface ∷ version ∷ r ∷ [])) global

module _ (text_at : ℕ → String) (bytes_at : ℕ → List ℕ) (depth : ℕ) (bs gs ws : ℕ → ℕ)
    (jdisplay jinterface display interface : ℕ) where
  abbrev to_interface : ℕ → M ℕ
  to_interface = native_interface_from_java text_at bytes_at (suc depth)

  abbrev Ready : World → Type 0
  Ready w = Account bs gs ws w × IsMade jinterface w × (native_of jinterface w ≡ interface)

  fetched :
      Triple
        (λ w. Ready w × (w.long_field (w.target jdisplay) ≡ display))
        (get_long_field jdisplay)
        (λ d w. Ready w × (d ≡ display))
        (Account bs gs ws)
  unfolding get_long_field
  fetched = record { apply = λ w p. returns p }

  tested : Triple Ready return_if_pending (λ _. Ready) (Account bs gs ws)
  tested = record { apply = λ w p. go w w.pending p }
    where
      go :
          (w : World) (t : Option Throwable)
          → Ready w
          → Post {A = Unit {0}}
              (λ _. Ready)
              (Account bs gs ws)
              (elim t [ none ↦ (some tt, w) | some t ↦ (none, w) ])
      go w none p = returns p
      go w (some t) p = leaves p.0

  converted :
      Triple Ready
        (or_null (to_interface jinterface))
        (λ i w. Account bs gs ws w × (i ≡ interface))
        (Account bs gs ws)
  converted = total λ w (o, m, e).
      (native_of jinterface w, w, made_interface text_at bytes_at depth jinterface w m, (o, e))

  global_create_native-Held :
      (jglobal version : ℕ)
      → Triple
          (λ w. Ready w × (w.long_field (w.target jdisplay) ≡ display))
          (global_create_native to_interface jglobal jdisplay jinterface version)
          (λ global w.
            (r : ℕ) × Account bs (plus r gs) ws w × IsGlobal display interface version r global w)
          (Account bs gs ws)
  unfolding global_create_native
  global_create_native-Held jglobal version =
      bind fetched λ d. given λ e. bind tested λ _. bind converted λ i. given λ f. created d i e f
    where
      created :
          (d i : ℕ)
          → d ≡ display
          → i ≡ interface
          → Triple
              (Account bs gs ws)
              (do
                return_if_pending
                self_ref ← or_else (new_global_ref jglobal) (throw_out_of_memory >> fail)
                or_else
                    (wayland_ptr "wl_global_create" (d ∷ i ∷ version ∷ self_ref ∷ []))
                    (do delete_global_ref self_ref; throw_out_of_memory; fail))
              (λ global w.
                (r : ℕ) × Account bs (plus r gs) ws w
                × IsGlobal display interface version r global w)
              (Account bs gs ws)
      created d i e f =
          rw (e, f)
            (bind test_pending λ _.
              bind
                (cleanup (new_global_ref-Owned jglobal)
                  (bind no_memory-Owned λ _. leave (λ w o. o)))
                λ r.
                  let arguments : List ℕ = display ∷ interface ∷ version ∷ r ∷ [] in
                  cleanup
                    (weaken (λ w o. o) (λ a w (o, h). (r, o, h)) (λ w o. o)
                      (beside (wayland_ptr-Owned "wl_global_create" arguments)
                        (wayland_ptr_answered "wl_global_create" arguments)))
                    (bind (delete_global_ref-Owned r)
                      λ _. bind no_memory-Owned λ _. leave (λ w o. o)))

-- From a balanced account and a free mutex, where the interface has its native interface or is null,
-- creating a Global's native object either succeeds, with just one more global reference held, and
-- returns what `wl_global_create`, the last call, answers, which is given the native display and
-- interface and that reference as the user data; or it fails with the account balanced.
pub global_create_native-balanced :
    (bs gs ws : ℕ → ℕ) (w : World)
    → Owned w false bs gs ws
    → (jinterface : ℕ) → IsMade jinterface w
    → (text_at : ℕ → String) (bytes_at : ℕ → List ℕ) (depth jglobal jdisplay version : ℕ)
    → Post
        (λ global u.
          (r : ℕ) × Account bs (plus r gs) ws u
          × IsGlobal (w.long_field (w.target jdisplay)) (native_of jinterface w) version r global u)
        (Account bs gs ws)
        (global_create_native
          (native_interface_from_java text_at bytes_at (suc depth))
          jglobal
          jdisplay
          jinterface
          version
          w)
global_create_native-balanced bs gs ws w o jinterface m text_at bytes_at depth jglobal jdisplay
      version =
    (global_create_native-Held text_at bytes_at depth bs gs ws jdisplay jinterface
        (w.long_field (w.target jdisplay)) (native_of jinterface w) jglobal version).apply
      w ((o, m, refl), refl)

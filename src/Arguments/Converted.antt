-- ===== src/Arguments/Converted.antt =====
-- object.c: the account of blocks behind wl_jni_arguments_from_java.
use wayland_java.Prelude.{
  ℕ, zero, suc, ◌+◌, ◌≡◌, refl, ap, ◌∙◌, subst, Bool, true, false, ◌||◌, none, List, [], ◌∷◌, ◌++◌,
  arith, ◌==◌, if◌then◌else◌,
}
use wayland_java.Arguments.{
  get_next_argument, is_owned, wrap_buffer, unbox_integer, convert_argument, convert_next,
  convert_loop, arguments_from_java,
}
use wayland_java.Arguments.Holding.{
  is_held, held_for, behind, behind-append, holding-append, Owned-cong,
}
use wayland_java.Arguments.Kept.{ensure_fixed-Keeps}
use wayland_java.Arguments.Ownership.{holding, arguments_from_java_destroy-Owned}
use wayland_java.Errors.{throw_out_of_memory}
use wayland_java.Errors.Quiet.{IsClear, jni-Quiet, ask-Quiet, allocate-Quiet, or_ends-Quiet}
use wayland_java.Fixed.{fixed_from_java}
use wayland_java.Jni.{
  Call, World, M, Post, Triple, bind, cleanup, value, leave, weaken, static, or_null,
}
use wayland_java.References.Bindings.{rest}
use wayland_java.References.Keeps.{Keeps, or_null-Keeps, asked-Owned}
use wayland_java.References.Ownership.{Owned, jni-Owned, gets-Owned, allocate-Owned}
use wayland_java.References.Registry.{no_memory-Owned, Account}
use wayland_java.Strings.{string_to_utf8}
use wayland_java.Strings.Account.{Bytes, string_to_utf8-Account}
use wayland_java.Strings.Calm.{Calm, Fetched, fetched, return_if_pending-Fetched, calmly}
use wayland_java.Strings.Quiet.{string_to_utf8-Quiet}

pub when_case :
    {P E : World → Type 0} {A : Type 0} {Q : A → World → Type 0} {m n : M A} (b : Bool)
    → (b ≡ true → Triple P m Q E)
    → (b ≡ false → Triple P n Q E)
    → Triple P (if b then m else n) Q E
when_case true f g = f refl
when_case false f g = g refl

module _ (bs gs ws : ℕ → ℕ) where
  unbox_integer-Keeps : (jobj : ℕ) → Keeps bs gs ws (unbox_integer jobj)
  unfolding unbox_integer
  unbox_integer-Keeps jobj =
      bind (gets-Owned (static "java.lang.Integer.intValue"))
        λ m. jni-Owned (Call.call_method jobj m [])

  fixed_from_java-Keeps : (jfixed : ℕ) → Keeps bs gs ws (fixed_from_java jfixed)
  unfolding fixed_from_java
  fixed_from_java-Keeps jfixed =
      bind (ensure_fixed-Keeps bs gs ws)
        λ _. bind (gets-Owned (static "Fixed.data")) λ f. jni-Owned (Call.get_int_field jfixed f)

  wrap_buffer-Calm :
      (jobj : ℕ)
      → Triple
          (Calm bs gs ws)
          (wrap_buffer jobj)
          (λ p w. Bytes bs gs ws p w × IsClear w)
          (Account bs gs ws)
  unfolding wrap_buffer
  wrap_buffer-Calm jobj =
      calmly
        (bind (cleanup allocate-Owned (bind no_memory-Owned λ _. leave (λ w o. o))) λ a.
          bind (asked-Owned (Call.get_direct_buffer_address jobj))
            λ _. bind (asked-Owned (Call.get_direct_buffer_capacity jobj)) λ _. value a (λ w o. o))
        (bind (or_ends-Quiet throw_out_of_memory allocate-Quiet) λ a.
          bind (ask-Quiet (Call.get_direct_buffer_address jobj))
            λ _. bind (ask-Quiet (Call.get_direct_buffer_capacity jobj)) λ _. value a (λ w p. p))

  -- What a conversion to the type `t` fetches, before the test for an exception.
  abbrev Got : ℕ → ℕ → World → Type 0
  Got t arg = Fetched bs gs ws (is_held t arg) arg

  number-Got :
      (t : ℕ) {m : M ℕ}
      → is_owned t ≡ false
      → Keeps bs gs ws m
      → Triple (Calm bs gs ws) (or_null m) (Got t) (Account bs gs ws)
  number-Got t h k =
      weaken (λ w p. p.0) (λ arg w o. rw h (o, λ e. absurd (ground (arith, e)))) (λ w e. e)
        (or_null-Keeps k)

  block-Got :
      (t : ℕ) {m : M ℕ}
      → is_owned t ≡ true
      → Triple (Calm bs gs ws) m (λ p w. Bytes bs gs ws p w × IsClear w) (Account bs gs ws)
      → Triple (Calm bs gs ws) m (Got t) (Account bs gs ws)
  block-Got t h k = weaken (λ w p. p) (λ arg w o. rw h (fetched bs gs ws arg w o)) (λ w e. e) k

  string-Got :
      (t jobj : ℕ)
      → is_owned t ≡ true
      → Triple (Calm bs gs ws) (or_null (string_to_utf8 jobj)) (Got t) (Account bs gs ws)
  string-Got t jobj h =
      cleanup
        (block-Got t h (calmly (string_to_utf8-Account bs gs ws jobj) (string_to_utf8-Quiet jobj)))
        (value 0 (λ w o. rw h (o, λ e. absurd (ground (arith, e)))))

  module _ (conversion : ℕ → M ℕ) (keeps : (o : ℕ) → Keeps bs gs ws (conversion o)) where
    convert_argument-Got :
        (t jobj : ℕ)
        → Triple (Calm bs gs ws) (convert_argument conversion t jobj) (Got t) (Account bs gs ws)
    unfolding convert_argument
    convert_argument-Got t jobj =
        when_case ((t == b'i') || ((t == b'u') || (t == b'h')))
          (λ h. number-Got t (ground (arith, h)) (unbox_integer-Keeps jobj))
          (λ _.
            when_case (t == b'f')
              (λ h. number-Got t (ground (arith, h)) (fixed_from_java-Keeps jobj))
              (λ _.
                when_case (t == b's') (λ h. string-Got t jobj (ground (arith, h)))
                  (λ s.
                    when_case ((t == b'o') || (t == b'n'))
                      (λ h. number-Got t (ground (arith, h)) (keeps jobj))
                      (λ _.
                        when_case (t == b'a')
                          (λ h. block-Got t (ground (arith, h)) (wrap_buffer-Calm jobj))
                          (λ h. value 0 (λ w p.
                            let e : is_owned t ≡ false = ground (arith, h, s) in
                            rw e (p.0, λ e. absurd (ground (arith, e)))))))))

    convert_next-Calm :
        (t jargs i : ℕ)
        → Triple
            (Calm bs gs ws)
            (convert_next conversion t jargs i)
            (λ arg. Calm (held_for t arg bs) gs ws)
            (Account bs gs ws)
    unfolding convert_next
    convert_next-Calm t jargs i =
        bind
          (calmly (jni-Owned (Call.get_object_array_element jargs i))
            (jni-Quiet (Call.get_object_array_element jargs i)))
          λ jobj. bind (convert_argument-Got t jobj) λ arg.
            bind (return_if_pending-Fetched bs gs ws (is_held t arg) arg) λ _. value arg (λ w c. c)

module _ (gs ws : ℕ → ℕ) (conversion : ℕ → M ℕ)
    (keeps : (bs : ℕ → ℕ) (o : ℕ) → Keeps bs gs ws (conversion o)) where
  convert_loop-Calm :
      (jargs : ℕ) (start args signature : List ℕ) (i n : ℕ) (bs : ℕ → ℕ)
      → behind args start ≡ signature
      → Triple
          (Calm (holding args start bs) gs ws)
          (convert_loop conversion jargs start args signature i n)
          (λ values. Calm (holding values start bs) gs ws)
          (Account bs gs ws)
  unfolding convert_loop
  convert_loop-Calm jargs start args signature i zero bs h = value args (λ w c. c)
  convert_loop-Calm jargs start args signature i (suc n) bs h =
      let cs = holding args start bs in
      let (d, rest) = get_next_argument signature in
      bind
        (cleanup (convert_next-Calm cs gs ws conversion (keeps cs) d.type jargs i)
          (bind (arguments_from_java_destroy-Owned args start bs) λ _. leave (λ w o. o)))
        λ arg.
          weaken
            (λ w c. (
              Owned-cong (holding (args ++ arg ∷ []) start bs)
                  (λ a.
                    subst
                      (λ s.
                        holding (args ++ arg ∷ []) start bs a
                        ≡ held_for (get_next_argument s).0.type arg cs a)
                      h (holding-append args arg start bs a))
                  c.0,
              c.1,
            ))
            (λ a w q. q) (λ w e. e)
            (convert_loop-Calm jargs start (args ++ arg ∷ []) rest (i + 1) n bs
              (behind-append args arg start ∙ ap (λ s. (get_next_argument s).1) h))

  -- wl_jni_arguments_from_java: what is converted is held by the argument list.
  pub arguments_from_java-Calm :
      (jargs : ℕ) (signature : List ℕ) (n : ℕ) (bs : ℕ → ℕ)
      → Triple
          (Calm bs gs ws)
          (arguments_from_java conversion jargs signature n)
          (λ values. Calm (holding values signature bs) gs ws)
          (Account bs gs ws)
  unfolding arguments_from_java
  arguments_from_java-Calm jargs signature n bs =
      convert_loop-Calm jargs signature [] signature 0 n bs refl

-- With a conversion of objects that keeps the account, from a balanced account, a free mutex and no
-- pending exception, wl_jni_arguments_from_java either returns with no exception pending and one
-- block held for each string and each array of the result that is not NULL, or it fails with the
-- account balanced: what it had converted is freed.
pub arguments_from_java-balanced :
    (bs gs ws : ℕ → ℕ) (w : World)
    → Owned w false bs gs ws
    → w.pending ≡ none
    → (conversion : ℕ → M ℕ) → ((cs : ℕ → ℕ) (o : ℕ) → Keeps cs gs ws (conversion o))
    → (jargs : ℕ) (signature : List ℕ) (n : ℕ)
    → Post
        (λ values. Calm (holding values signature bs) gs ws)
        (Account bs gs ws)
        (arguments_from_java conversion jargs signature n w)
arguments_from_java-balanced bs gs ws w o c conversion keeps jargs signature n =
    (arguments_from_java-Calm gs ws conversion keeps jargs signature n bs).apply w (o, c)

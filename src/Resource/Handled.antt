-- ===== src/Resource/Handled.antt =====
-- server/resource.c: what handle_resource_errors leaves behind.
use wayland_java.Prelude.{
  ℕ, suc, String, ◌≡◌, refl, ◌∙◌, subst, Bool, true, false, not, Option, none, some, List, [], ◌∷◌,
  arith, ◌==◌, if◌then◌else◌,
}
use wayland_java.Arguments.Counts.{is_resource_ref}
use wayland_java.Arguments.Dispatched.{dispatch_message}
use wayland_java.Errors.Caught.{IsLast, asked, posts, caught, or_null_caught, gets_any}
use wayland_java.Errors.Quiet.{Anything, IsClear}
use wayland_java.Jni.{
  Call, Throwable, World, M, pure, ◌>>=◌, ◌>>◌, ask, jni, Post, returns, leaves, Triple, bind,
  value, total, weaken, free, static, clear_exception,
}
use wayland_java.Resource.{resource_to_java, resource_dispatcher}
use wayland_java.Resource.Errors.{
  is_instance, get_exception, unhandled_exception, post_no_memory, second_exception, post_and_clear,
  invalid_method, post_message, convert_message, get_message, handle_exception,
  handle_resource_errors,
}
use wayland_java.Strings.{string_to_utf8}

-- A protocol error that is posted to a resource.
pub data IsPost (resource : ℕ) : Call → Type 0 where
  with_code :
      (code msg : ℕ)
      → IsPost resource (Call.wayland "wl_resource_post_error" (resource ∷ code ∷ msg ∷ []))
  for_memory : IsPost resource (Call.wayland "wl_resource_post_no_memory" (resource ∷ []))

-- No exception is pending, and the last call posts an error.
pub record IsHandled (resource : ℕ) (w : World) : Type 0 where
  pub calm : w.pending ≡ none
  pub post : Call
  pub before : List Call
  pub last : w.log ≡ post ∷ before
  pub posted : IsPost resource post

free-log : (p : ℕ) (w : World) → (free p w).1.log ≡ w.log
unfolding free
free-log p w = ground arith

free_returns : (p : ℕ) (w : World) → (free p w).0 ≡ some tt
unfolding free
free_returns p w = ground arith

module _ {E : World → Type 0} where
  free-IsLast : (c : Call) (p : ℕ) → Triple (IsLast c) (free p) (λ _. IsLast c) E
  free-IsLast c p = total λ w (b, h).
      (tt, (free p w).1, (λ i. (free_returns p w i, (free p w).1)), (b, free-log p w ∙ h))

  is_instance-Anything :
      (exception : ℕ) (member : String)
      → Triple Anything (is_instance exception member) (λ _. Anything) E
  unfolding is_instance
  is_instance-Anything exception member =
      bind (gets_any (static member)) λ cls.
        bind (asked (Call.is_instance_of exception cls)) λ n. value (not (n == 0)) (λ w h. tt)

module _ (resource : ℕ) where
  abbrev Handles : M ℕ → Type 0
  Handles m = Triple Anything m (λ _. IsHandled resource) IsClear

  finished :
      (c : Call)
      → IsPost resource c
      → Triple {A = ℕ} (IsLast c) (clear_exception >> pure 0) (λ _. IsHandled resource) IsClear
  finished c k = record {
    apply =
        λ w (b, h). returns (record { calm = refl; post = c; before = b; last = h; posted = k });
  }

  unhandled : Handles unhandled_exception
  unfolding unhandled_exception
  unhandled = record { apply = λ w _. leaves refl }

  no_memory_handled : Handles (post_no_memory resource)
  unfolding post_no_memory
  no_memory_handled =
      bind (posts "wl_resource_post_no_memory" (resource ∷ []))
        λ _. finished (Call.wayland "wl_resource_post_no_memory" (resource ∷ [])) for_memory

  branch : (b : Bool) {m n : M ℕ} → Handles m → Handles n → Handles (if b then m else n)
  branch true t u = t
  branch false t u = u

  second-Handles : (exception : ℕ) → Handles (second_exception resource exception)
  unfolding second_exception
  second-Handles exception =
      bind (is_instance-Anything exception "resource.java.lang.OutOfMemoryError.class")
        λ oom. branch oom no_memory_handled unhandled

  post_and_clear-Handles : (code c_msg : ℕ) → Handles (post_and_clear resource code c_msg)
  unfolding post_and_clear
  post_and_clear-Handles code c_msg =
      let c = Call.wayland "wl_resource_post_error" (resource ∷ code ∷ c_msg ∷ []) in
      bind (posts "wl_resource_post_error" (resource ∷ code ∷ c_msg ∷ []))
        λ _. bind (free-IsLast c c_msg) λ _. finished c (with_code code c_msg)

  post_message-Handles : (exception c_msg : ℕ) → Handles (post_message resource exception c_msg)
  unfolding post_message
  post_message-Handles exception c_msg =
      bind (is_instance-Anything exception "resource.java.lang.NoSuchMethodError.class")
        λ no_method. branch no_method (post_and_clear-Handles invalid_method c_msg) (
          bind (is_instance-Anything exception "RequestError.class") λ request_error.
            branch request_error
              (bind (gets_any (static "RequestError.errorCode")) λ f.
                bind (or_null_caught (jni (Call.get_int_field exception f)))
                  λ code. post_and_clear-Handles code c_msg)
              (bind (freed c_msg) λ _. unhandled))
    where
      freed : (p : ℕ) → Triple Anything (free p) (λ _. Anything) IsClear
      freed p = total λ w _. (tt, (free p w).1, (λ i. (free_returns p w i, (free p w).1)), tt)

  tested :
      (threw : Option Throwable) {m n : M ℕ}
      → Handles m
      → Handles n
      → Handles (elim threw [ some _ ↦ m | none ↦ n ])
  tested (some t) m n = m
  tested none m n = n

  convert_message-Handles :
      (exception message : ℕ) → Handles (convert_message resource exception message)
  unfolding convert_message
  convert_message-Handles exception message =
      bind (or_null_caught (string_to_utf8 message)) λ c_msg.
        bind (gets_any (λ w. w.pending))
          λ threw. tested threw (second-Handles exception) (post_message-Handles exception c_msg)

  get_message-Handles : (exception : ℕ) → Handles (get_message resource exception)
  unfolding get_message
  get_message-Handles exception =
      bind {Q = λ _. Anything} (total λ w _. (tt, record w { pending = none }, refl, tt)) λ _.
        bind (gets_any (static "resource.java.lang.Throwable.getMessage")) λ mid.
          bind (or_null_caught (jni (Call.call_method exception mid []))) λ message.
            bind (gets_any (λ w. w.pending)) λ threw.
              tested threw (second-Handles exception) (convert_message-Handles exception message)

  handle_exception-Handles : (exception : ℕ) → Handles (handle_exception resource exception)
  unfolding handle_exception
  handle_exception-Handles exception =
      bind {Q = λ _. Anything} (total λ w _. (tt, record w { pending = none }, refl, tt)) λ _.
        bind (is_instance-Anything exception "resource.java.lang.OutOfMemoryError.class") λ oom.
          branch oom no_memory_handled (
            bind (is_instance-Anything exception "resource.java.lang.NoSuchMethodError.class")
              λ no_method.
                bind (known no_method) λ k. branch k (get_message-Handles exception) unhandled)
    where
      known :
          (no_method : Bool)
          → Triple Anything
              (if no_method then pure true else is_instance exception "RequestError.class")
              (λ _. Anything)
              IsClear
      known true = value true (λ w p. tt)
      known false = is_instance-Anything exception "RequestError.class"

  -- What the reference to the pending exception says of the world.
  abbrev Occurred : Option Throwable → ℕ → World → Type 0
  Occurred none e w = (e ≡ 0) × IsClear w
  Occurred (some t) e w = (e == 0) ≡ false

  abbrev Outcome : Option Throwable → World → Type 0
  Outcome none = IsClear
  Outcome (some t) = IsHandled resource

  occurred :
      (threw : Option Throwable)
      → Triple {A = ℕ}
          (λ w. w.pending ≡ threw)
          (elim threw [ none ↦ pure 0 | some _ ↦ do n ← ask Call.exception_occurred; pure (suc n) ])
          (Occurred threw)
          IsClear
  occurred none = value 0 (λ w h. (refl, h))
  occurred (some t) =
      bind
        (weaken (λ w _. tt) (λ n w h. tt) (λ w h. h) (asked {E = IsClear} Call.exception_occurred))
        λ n. value {P = Anything} (suc n) (λ w h. ground arith)

  handled :
      (threw : Option Throwable) (e : ℕ)
      → Triple {A = ℕ}
          (Occurred threw e)
          (if e == 0 then pure 0 else handle_exception resource e)
          (λ _. Outcome threw)
          IsClear
  handled none e = record { apply = λ w (h, c). rw h (returns c) }
  handled (some t) e = record { apply = λ w h. rw h ((handle_exception-Handles e).apply w tt) }

  handle_resource_errors-Outcome :
      (w : World) → Post (λ _. Outcome w.pending) IsClear (handle_resource_errors resource w)
  unfolding handle_resource_errors get_exception
  handle_resource_errors-Outcome w = (bind (occurred w.pending) (handled w.pending)).apply w refl

  Outcome-IsClear : (threw : Option Throwable) (w : World) → Outcome threw w → IsClear w
  Outcome-IsClear none w c = c
  Outcome-IsClear (some t) w h = h.calm

  handle_resource_errors-Clear :
      Triple Anything (handle_resource_errors resource) (λ _. IsClear) IsClear
  handle_resource_errors-Clear = record {
    apply = λ w _. go w (handle_resource_errors resource w) (handle_resource_errors-Outcome w);
  }
    where
      go :
          (w : World) (r : Option ℕ × World)
          → Post (λ _. Outcome w.pending) IsClear r
          → Post (λ _. IsClear) IsClear r
      go w (some a, u) (returns q) = returns (Outcome-IsClear w.pending u q)
      go w (none, u) (leaves c) = leaves c

-- Where an exception is pending, handle_resource_errors leaves none behind; and where it returns 0,
-- the last thing that it called posts a protocol error to the resource.
pub handle_resource_errors-IsHandled :
    (resource : ℕ) (t : Throwable) (w : World)
    → w.pending ≡ some t
    → Post (λ _. IsHandled resource) IsClear (handle_resource_errors resource w)
handle_resource_errors-IsHandled resource t w h =
    subst (λ p. Post (λ _. Outcome resource p) IsClear (handle_resource_errors resource w)) h
      (handle_resource_errors-Outcome resource w)

-- Whatever the conversions, the Java method and the virtual machine do, no exception is pending when
-- wl_jni_resource_dispatcher is done, with 0 or with -1.
pub resource_dispatcher-IsClear :
    (length_at : ℕ → ℕ) (array_at : ℕ → ℕ × ℕ) (resource mid : ℕ) (signature args : List ℕ)
    (w : World)
    → Post
        (λ _. IsClear)
        IsClear
        (resource_dispatcher length_at array_at resource mid signature args w)
unfolding resource_dispatcher
resource_dispatcher-IsClear length_at array_at resource mid signature args w =
    (bind
        (caught (
          dispatch_message resource_to_java "Resource.data" is_resource_ref false length_at array_at
            resource mid signature args))
        λ _. handle_resource_errors-Clear resource).apply
      w tt

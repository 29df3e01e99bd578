-- ===== src/Arguments.antt =====
-- object.c: the walk along a message's signature, and the conversion of a Java array of arguments
-- to `union wl_argument`s. A signature is the list of its characters, without the final NUL, and a
-- union is the word that it holds: a number, an object or a pointer.
pub mod Counts
pub mod Ownership
pub mod ToJava
pub mod Received
pub mod Kept
pub mod Holding
pub mod Converted
pub mod Sent
pub mod Balance
pub mod Dispatched
use wayland_java.Prelude.{
  ℕ, zero, suc, ◌+◌, Bool, true, false, ◌||◌, List, [], ◌∷◌, ◌++◌, ◌==◌, if◌then◌else◌, count,
}
use wayland_java.Errors.{throw_out_of_memory}
use wayland_java.Fixed.{fixed_from_java}
use wayland_java.Jni.{
  Call, M, pure, fail, or_else, gets, ◌>>=◌, ◌>>◌, ask, jni, allocate, free, return_if_pending,
  static, or_null,
}
use wayland_java.Strings.{string_to_utf8}

-- `struct argument_details`.
pub record Details : Type 0 where
  pub type : ℕ
  pub nullable : Bool

abbrev pub details : ℕ → Bool → Details
details t n = record { type = t; nullable = n }

-- What stands behind a `?`. At the end it is the NUL, and a caller that went on would read past it.
unfoldable pub nullable_argument : List ℕ → Details × List ℕ
nullable_argument [] = (details 0 true, [])
nullable_argument (c ∷ s) = (details c true, s)

unfoldable pub get_next_argument : List ℕ → Details × List ℕ
unfolding nullable_argument
get_next_argument [] = (details 0 false, [])
get_next_argument (c ∷ s) = if c == b'?' then nullable_argument s else (details c false, s)

unfoldable pub arg_count_for_signature : List ℕ → ℕ
arg_count_for_signature [] = 0
arg_count_for_signature (c ∷ s) =
    let n = arg_count_for_signature s in if c == b'?' then n else suc n

-- The types whose union member is a block of the caller's.
abbrev pub is_owned : ℕ → Bool
is_owned t = (t == b's') || (t == b'a')

-- wl_jni_arguments_from_java_destroy: one round of the loop for each argument.
unfoldable pub arguments_from_java_destroy : List ℕ → List ℕ → M (Unit {0})
unfolding get_next_argument
arguments_from_java_destroy [] signature = pure tt
arguments_from_java_destroy (arg ∷ args) signature = do
  if is_owned (get_next_argument signature).0.type then free arg else pure tt
  arguments_from_java_destroy args (get_next_argument signature).1

-- The array's `struct wl_array`, over the memory of a direct buffer.
unfoldable pub wrap_buffer : ℕ → M ℕ
unfolding ask
wrap_buffer jobj = do
  a ← or_else allocate (throw_out_of_memory >> fail)
  ask (Call.get_direct_buffer_address jobj)
  ask (Call.get_direct_buffer_capacity jobj)
  pure a

unfoldable pub unbox_integer : ℕ → M ℕ
unfolding jni
unbox_integer jobj = do
  int_value ← gets (static "java.lang.Integer.intValue")
  jni (Call.call_method jobj int_value [])

-- The `switch` of wl_jni_arguments_from_java; `conversion` is the caller's object_conversion. An
-- argument of another type leaves its union as it was (here 0).
unfoldable pub convert_argument : (ℕ → M ℕ) → ℕ → ℕ → M ℕ
unfolding unbox_integer fixed_from_java
convert_argument conversion type jobj =
    if (type == b'i') || ((type == b'u') || (type == b'h'))
    then or_null (unbox_integer jobj)
    else if type == b'f'
    then or_null (fixed_from_java jobj)
    else if type == b's'
    then or_null (string_to_utf8 jobj)
    else if (type == b'o') || (type == b'n')
    then or_null (conversion jobj)
    else if type == b'a'
    then wrap_buffer jobj
    else pure 0

-- One round: the element, its conversion, and the test for an exception.
unfoldable pub convert_next : (ℕ → M ℕ) → ℕ → ℕ → ℕ → M ℕ
unfolding jni
convert_next conversion type jargs i = do
  jobj ← jni (Call.get_object_array_element jargs i)
  arg ← convert_argument conversion type jobj
  return_if_pending
  pure arg

-- The loop from argument `i` on, with the `n` arguments left, over what stands in `args` so far;
-- `start` is the whole signature, which `free_args` walks again.
unfoldable pub convert_loop : (ℕ → M ℕ) → ℕ → List ℕ → List ℕ → List ℕ → ℕ → ℕ → M (List ℕ)
unfolding get_next_argument
convert_loop conversion jargs start args signature i zero = pure args
convert_loop conversion jargs start args signature i (suc n) = do
  arg ←
      or_else (convert_next conversion (get_next_argument signature).0.type jargs i)
        (arguments_from_java_destroy args start >> fail)
  convert_loop conversion jargs start (args ++ arg ∷ []) (get_next_argument signature).1 (i + 1) n

unfoldable pub arguments_from_java : (ℕ → M ℕ) → ℕ → List ℕ → ℕ → M (List ℕ)
arguments_from_java conversion jargs signature count =
    convert_loop conversion jargs signature [] signature 0 count

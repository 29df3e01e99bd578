-- ===== src/Tests/Messages.antt =====
-- The JNI signatures of messages on concrete texts.
use wayland_java.Prelude.{
  ℕ, ◌+◌, ◌*◌, ◌<◌, String, len, ◌≡◌, refl, true, List, [], ◌∷◌, arith, length,
}
use wayland_java.Arguments.{arg_count_for_signature}
use wayland_java.Interface.{appended, pieces, join, java_signature, max_jsig_len, get_java_method}
use wayland_java.Interface.Leak.{Lost, get_java_method-leaks}
use wayland_java.Interface.Signature.{is_convertible, arrays, length-pieces, java_signature-fits}
use wayland_java.Jni.{Post}
use wayland_java.Samples.{start_world, nothing, start-Owned}

-- `?sai`, an argument of each kind that a message of wl_data_device could have.
abbrev string_array_int : List ℕ
string_array_int = b'?' ∷ b's' ∷ b'a' ∷ b'i' ∷ []

abbrev surface : String
surface = "org/freedesktop/wayland/protocol/WlSurface"

java_signature_run :
    java_signature true surface string_array_int
    ≡ "(Lorg/freedesktop/wayland/protocol/WlSurface;Ljava/lang/String;I)V"
unfolding java_signature pieces appended join
java_signature_run = refl

length-pieces_example :
    length (pieces true string_array_int) + arrays string_array_int
    ≡ arg_count_for_signature string_array_int
unfolding is_convertible
length-pieces_example = length-pieces true string_array_int refl

surface_fits : len surface + 41 * arg_count_for_signature string_array_int + 5 < max_jsig_len
unfolding arg_count_for_signature
surface_fits = let h : len surface ≡ 42 = refl in ground arith

java_signature-fits_example : len (java_signature true surface string_array_int) < max_jsig_len
java_signature-fits_example = java_signature-fits true surface string_array_int surface_fits

get_java_method-leaks_example :
    Post
      (Lost nothing nothing nothing (λ p. surface) "attach" string_array_int true)
      (λ _. Unit {0})
      (get_java_method (λ p. surface) 3 "attach" string_array_int true start_world)
unfolding java_signature pieces appended join
get_java_method-leaks_example =
    get_java_method-leaks nothing nothing nothing start_world start-Owned (λ p. surface) 3 "attach"
      string_array_int true (λ p. refl)

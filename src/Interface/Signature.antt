-- ===== src/Interface/Signature.antt =====
-- interface.c: how long the JNI signature of a message is, and how many parameters it has.
use text.Mathlib.TextPositions.{len-append}
use Prim.Native.String.{◌++◌ as ◌+++◌}
use wayland_java.Prelude.{
  ℕ, suc, ◌+◌, ◌*◌, ◌≤◌, ◌<◌, String, len, ◌≡◌, refl, subst, inl, inr, Bool, true, false, ◌&&◌,
  ◌||◌, Option, none, some, List, [], ◌∷◌, arith, ◌==◌, if◌then◌else◌, Option-cases, length,
}
use wayland_java.Arguments.{arg_count_for_signature}
use wayland_java.Interface.{
  proxy_type, resource_type, fixed_type, string_type, appended, pieces, join, java_signature,
  max_jsig_len,
}

-- Every character is a mark or a letter that wl_jni_arguments_from_java converts.
unfoldable pub is_convertible : List ℕ → Bool
is_convertible [] = true
is_convertible (c ∷ s) =
    let r = is_convertible s in
    ((c == b'?')
      || ((c == b'i')
          || ((c == b'u')
              || ((c == b'f')
                  || ((c == b's')
                      || ((c == b'o') || ((c == b'n') || ((c == b'a') || (c == b'h')))))))))
    && r

-- The array arguments.
unfoldable pub arrays : List ℕ → ℕ
arrays [] = 0
arrays (c ∷ s) = let r = arrays s in if c == b'a' then suc r else r

-- The JNI signature of a message whose letters are all convertible has, besides the interface's
-- own object, one parameter for each argument that is not an array, and none for an array.
pub length-pieces :
    (events : Bool) (signature : List ℕ)
    → is_convertible signature ≡ true
    → length (pieces events signature) + arrays signature ≡ arg_count_for_signature signature
unfolding pieces appended is_convertible arrays arg_count_for_signature
length-pieces events [] h = refl
length-pieces events (c ∷ s) h = ground (arith, length-pieces events s)

abbrev size : Option String → ℕ
size none = 0
size (some t) = len t

size_if :
    (b : Bool) (x y : Option String) → size x ≤ 41 → size y ≤ 41 → size (if b then x else y) ≤ 41
size_if true x y h k = h
size_if false x y h k = k

size_some : (b : Bool) (t u : String) → len t ≤ 41 → len u ≤ 41 → len (if b then t else u) ≤ 41
size_some true t u h k = h
size_some false t u h k = k

short : (t : String) (n : ℕ) → len t ≡ n → n ≤ 41 → len t ≤ 41
short t n e h = rw e h

-- No type takes more than 41 characters.
size-appended : (events : Bool) (c : ℕ) → size (appended events c) ≤ 41
unfolding appended
size-appended events c =
    let int = short "I" 1 refl (omega arith) in
    let p = short proxy_type 38 refl (omega arith) in
    let r = short resource_type 41 refl (omega arith) in
    let n : Option String = if c == b'n' then some (if events then proxy_type else "I") else none in
    let o : Option String =
      if c == b'o' then some (if events then proxy_type else resource_type) else n in
    let s : Option String = if c == b's' then some string_type else o in
    let f : Option String = if c == b'f' then some fixed_type else s in
    size_if ((c == b'i') || ((c == b'u') || (c == b'h'))) (some "I") f int (
      size_if (c == b'f') (some fixed_type) s (short fixed_type 31 refl (omega arith)) (
        size_if (c == b's') (some string_type) o (short string_type 18 refl (omega arith)) (
          size_if (c == b'o') (some (if events then proxy_type else resource_type)) n
            (size_some events proxy_type resource_type p r)
            (size_if (c == b'n') (some (if events then proxy_type else "I")) none
              (size_some events proxy_type "I" p int) (omega arith)))))

appended-short : (events : Bool) (c : ℕ) (t : String) → appended events c ≡ some t → len t ≤ 41
appended-short events c t h = subst (λ o. size o ≤ 41) h (size-appended events c)

appended_letter :
    (events : Bool) (c : ℕ) (t : String) → appended events c ≡ some t → (c == b'?') ≡ false
unfolding appended
appended_letter events c t h = ground arith

join_next :
    (o : Option String) (r : List String)
    → join (elim o [ none ↦ r | some t ↦ t ∷ r ]) ≡ elim o [ none ↦ join r | some t ↦ t +++ join r ]
unfolding join
join_next none r = refl
join_next (some t) r = refl

join-pieces :
    (events : Bool) (c : ℕ) (s : List ℕ)
    → join (pieces events (c ∷ s)) ≡ elim (appended events c) [
      | none ↦ join (pieces events s)
      | some t ↦ t +++ join (pieces events s)
    ]
unfolding pieces
join-pieces events c s = join_next (appended events c) (pieces events s)

len_nothing : (events : Bool) → len (join (pieces events [])) ≡ 0
unfolding pieces join
len_nothing events = refl

len-join :
    (events : Bool) (signature : List ℕ)
    → len (join (pieces events signature)) ≤ 41 * arg_count_for_signature signature
unfolding arg_count_for_signature
len-join events [] = ground (arith, len_nothing events)
len-join events (c ∷ s) = rw (join-pieces events c s) (elim (Option-cases (appended events c)) [
  | inl e ↦ rw e (ground (arith, len-join events s))
  | inr (t, e) ↦
      let h : len (t +++ join (pieces events s)) ≡ len t + len (join (pieces events s)) =
        len-append t (join (pieces events s)) in
      rw e (
        ground
          (arith, h, appended-short events c t e, len-join events s, appended_letter events c t e))
])

-- A message whose interface's class name leaves room for 41 characters per argument and 5 more has
-- a JNI signature that fits into `jsignature`, with its final NUL.
pub java_signature-fits :
    (events : Bool) (proxy_name : String) (signature : List ℕ)
    → len proxy_name + 41 * arg_count_for_signature signature + 5 < max_jsig_len
    → len (java_signature events proxy_name signature) < max_jsig_len
unfolding java_signature
java_signature-fits events proxy_name signature h =
    let tail = join (pieces events signature) in
    ground (
      arith,
      len-join events signature,
      len-append "(L" (proxy_name +++ (";" +++ (tail +++ ")V"))),
      len-append proxy_name (";" +++ (tail +++ ")V")),
      len-append ";" (tail +++ ")V"),
      len-append tail ")V",
    )

-- ===== src/Arguments/Counts.antt =====
-- The loops over a message's signature that count, in server/resource.c and client/proxy.c.
use wayland_java.Prelude.{
  ℕ, suc, ◌≡◌, refl, Bool, true, ◌||◌, not, List, [], ◌∷◌, arith, ◌==◌, if◌then◌else◌,
}
use wayland_java.Arguments.{arg_count_for_signature}
use wayland_java.Interface.Signature.{is_convertible}

-- How many characters of a signature satisfy a test.
unfoldable pub count_if : (ℕ → Bool) → List ℕ → ℕ
count_if f [] = 0
count_if f (c ∷ s) = let n = count_if f s in if f c then suc n else n

-- The `switch` of Resource.postEvent.
unfoldable pub is_posted : ℕ → Bool
is_posted c =
    (c == b'i')
    || ((c == b'u')
        || ((c == b'f')
            || ((c == b's') || ((c == b'o') || ((c == b'n') || ((c == b'a') || (c == b'h')))))))

-- The test of Proxy.marshal.
unfoldable pub is_marshalled : ℕ → Bool
is_marshalled c = not (c == b'?')

-- What wl_jni_resource_dispatcher counts as a reference: `n` is a number for a server.
unfoldable pub is_resource_ref : ℕ → Bool
is_resource_ref c = (c == b'f') || ((c == b's') || ((c == b'o') || (c == b'a')))

-- The same for wl_jni_proxy_dispatcher: `n` is an object for a client.
unfoldable pub is_proxy_ref : ℕ → Bool
is_proxy_ref c = (c == b'f') || ((c == b's') || ((c == b'o') || ((c == b'a') || (c == b'n'))))

-- The arguments of a dispatcher, by the same `switch` with its fall-through.
unfoldable pub is_dispatched : (ℕ → Bool) → ℕ → Bool
is_dispatched is_ref c = is_ref c || ((c == b'u') || ((c == b'i') || ((c == b'n') || (c == b'h'))))

-- On a signature whose characters are all marks or letters that are converted, the three ways to
-- count the arguments of a message agree: that of Resource.postEvent, that of Proxy.marshal, and
-- that of both dispatchers; and it is the number that wl_jni_arguments_from_java is to be given.
pub counts-agree :
    (signature : List ℕ)
    → is_convertible signature ≡ true
    → (count_if is_posted signature ≡ arg_count_for_signature signature)
      × (count_if is_marshalled signature ≡ arg_count_for_signature signature)
      × (count_if (is_dispatched is_resource_ref) signature ≡ arg_count_for_signature signature)
      × (count_if (is_dispatched is_proxy_ref) signature ≡ arg_count_for_signature signature)
unfolding count_if is_posted is_marshalled is_dispatched is_resource_ref is_proxy_ref is_convertible
    arg_count_for_signature
counts-agree [] h = (refl, refl, refl, refl)
counts-agree (c ∷ s) h =
    let (p, m, r, x) = counts-agree s (ground (arith, h)) in
    (ground (arith, p, h), ground (arith, m, h), ground (arith, r, h), ground (arith, x, h))

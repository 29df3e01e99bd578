-- ===== src/Strings/Account.antt =====
-- The blocks of wl_jni_string_to_utf8 and wl_jni_string_to_default.
use wayland_java.Prelude.{
  ℕ, String, inl, inr, false, List, [], ◌∷◌, ◌==◌, if◌then◌else◌, Bool-cases,
}
use wayland_java.Jni.{Call, World, M, fail, Post, Triple, bind, cleanup, value, leave, static}
use wayland_java.Loading.{slot}
use wayland_java.References.Ownership.{
  Owned, plus, Holds, jni-Owned, jni_ptr-Owned, ask-Owned, gets-Owned, allocate-Owned, free-Owned,
}
use wayland_java.References.Registry.{no_memory-Owned, cache-Owned, Account}
use wayland_java.Strings.{copy_bytes, string_to_utf8, string_to_default}

module _ (bs gs ws : ℕ → ℕ) where
  abbrev pub Bytes : ℕ → World → Type 0
  Bytes p = Holds false (plus p bs) gs ws

  copy_bytes-Account :
      (str : ℕ) (slot : String) (arguments : List ℕ)
      → Triple (Account bs gs ws) (copy_bytes str slot arguments) Bytes (Account bs gs ws)
  unfolding copy_bytes
  copy_bytes-Account str slot arguments = bind (jni-Owned (Call.ensure_local_capacity 1)) λ _.
      bind (gets-Owned (static slot)) λ get_bytes.
        bind (jni_ptr-Owned (Call.call_method str get_bytes arguments)) λ bytes.
          bind (ask-Owned (Call.get_array_length bytes)) λ _.
            bind (cleanup allocate-Owned (bind no_memory-Owned λ _. leave (λ w o. o))) λ c.
              bind
                (cleanup (jni-Owned (Call.get_byte_array_region bytes))
                  (bind (free-Owned c) λ _. leave (λ w o. o)))
                λ _. value c (λ w o. o)

  null_or :
      (str : ℕ) {m : M ℕ}
      → Triple (Account bs gs ws) m Bytes (Account bs gs ws)
      → Triple (Account bs gs ws) (if str == 0 then fail else m) Bytes (Account bs gs ws)
  null_or str {m} t = elim (Bool-cases (str == 0)) [
    | inl null ↦ rw null (leave (λ w o. o))
    | inr other ↦ rw other t
  ]

  -- wl_jni_string_to_utf8 returns one fresh block that the caller holds; where it returns NULL,
  -- every block that it took is freed again.
  pub string_to_utf8-Account :
      (str : ℕ) → Triple (Account bs gs ws) (string_to_utf8 str) Bytes (Account bs gs ws)
  unfolding string_to_utf8
  string_to_utf8-Account str = null_or str (
      bind cache-Owned λ _.
        bind (gets-Owned (static "java.nio.charset.utf8"))
          λ utf8. copy_bytes-Account str "java.lang.String.getBytes_charset" (utf8 ∷ []))

  pub string_to_default-Account :
      (str : ℕ) → Triple (Account bs gs ws) (string_to_default str) Bytes (Account bs gs ws)
  unfolding string_to_default
  string_to_default-Account str =
      null_or str (bind cache-Owned λ _. copy_bytes-Account str "java.lang.String.getBytes" [])

-- From a balanced account and a free mutex, each conversion to a C string returns one fresh block
-- that its caller then holds, or fails with every block that it took freed again.
pub strings-balanced :
    (bs gs ws : ℕ → ℕ) (w : World)
    → Owned w false bs gs ws
    → (str : ℕ)
    → Post (Bytes bs gs ws) (Account bs gs ws) (string_to_utf8 str w)
      × Post (Bytes bs gs ws) (Account bs gs ws) (string_to_default str w)
strings-balanced bs gs ws w o str = (
  (string_to_utf8-Account bs gs ws str).apply w o,
  (string_to_default-Account bs gs ws str).apply w o,
)

-- ===== src/Interface/Native/Made.antt =====
-- interface.c: the lookup of a native interface that has been made before.
use wayland_java.Prelude.{ℕ, suc, String, ◌≡◌, false, some, List, arith, ◌==◌, if◌then◌else◌}
use wayland_java.Interface.Native.{native_interface_from_java}
use wayland_java.Jni.{World, get_long_field, or_null}

-- The native pointer behind a reference, or NULL.
abbrev pub native_of : ℕ → World → ℕ
native_of jobj w = if jobj == 0 then 0 else w.long_field (w.target jobj)

-- The native interface of `jinterface`, unless that is null, has been made.
abbrev pub IsMade : ℕ → World → Type 0
IsMade jinterface w = (jinterface == 0) ≡ false → (w.long_field (w.target jinterface) == 0) ≡ false

module _ (text_at : ℕ → String) (bytes_at : ℕ → List ℕ) (depth : ℕ) where
  -- wl_jni_interface_from_java then only reads it.
  pub made_interface :
      (i : ℕ) (w : World)
      → IsMade i w
      → or_null (native_interface_from_java text_at bytes_at (suc depth) i) w
        ≡ (some (native_of i w), w)
  unfolding native_interface_from_java get_long_field
  made_interface i w h = ground (arith, h)

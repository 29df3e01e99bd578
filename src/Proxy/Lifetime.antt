-- ===== src/Proxy/Lifetime.antt =====
-- client/proxy.c: the reference that a native proxy holds, from Proxy.createNative to Proxy.destroy.
use wayland_java.Prelude.{ℕ, suc, ◌≡◌, true, false, List, [], ◌∷◌, ◌==◌, has, erase}
use wayland_java.Jni.{Call, Answer, done, World, update}

-- What libwayland and the virtual machine promise of one proxy: the user data is what was registered,
-- and the field can be written.
pub record IsKeptBy (outside : List Call → Call → Answer) (jproxy native_proxy r : ℕ) : Type 0 where
  pub reference : (past : List Call) → outside past (Call.global_ref jproxy) ≡ done r
  pub user_data :
      (past : List Call)
      → outside past (Call.wayland "wl_proxy_get_user_data" (native_proxy ∷ [])) ≡ done (suc r)
  pub field_set :
      (past : List Call) (v : ℕ) → (n : ℕ) × (outside past (Call.put_long_field jproxy v) ≡ done n)

-- A proxy that is bound to its Java object, and holds the reference `r`.
pub record IsBound (w : World) (jproxy native_proxy r : ℕ) : Type 0 where
  pub object : (jproxy == 0) ≡ false
  pub pointer : w.long_field (w.target jproxy) ≡ native_proxy
  pub block : (native_proxy == 0) ≡ false
  pub live : has r w.globals ≡ true

-- The world behind the destruction.
abbrev destroyed : ℕ → ℕ → ℕ → World → World
destroyed jproxy native_proxy r w = record w {
  log =
      Call.put_long_field jproxy 0
      ∷ Call.wayland "wl_proxy_destroy" (native_proxy ∷ [])
      ∷ Call.wayland "wl_proxy_get_user_data" (native_proxy ∷ [])
      ∷ w.log;
  globals = erase r w.globals;
  long_field = update w.long_field (w.target jproxy) 0;
}

-- The world of a new proxy.
abbrev bound : ℕ → ℕ → ℕ → ℕ → World → World
bound jproxy interface native_proxy r w = record w {
  log =
      Call.wayland "wl_proxy_add_dispatcher" (native_proxy ∷ interface ∷ suc r ∷ [])
      ∷ Call.put_long_field jproxy native_proxy
      ∷ Call.global_ref jproxy
      ∷ w.log;
  globals = suc r ∷ w.globals;
  target = update w.target (suc r) (w.target jproxy);
  long_field = update w.long_field (update w.target (suc r) (w.target jproxy) jproxy) native_proxy;
}

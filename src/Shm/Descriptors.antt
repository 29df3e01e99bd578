-- ===== src/Shm/Descriptors.antt =====
-- shm_pool.c: the open descriptors `fs` beside the account of blocks and references, and the
-- primitives on both.
use wayland_java.Prelude.{ℕ, ◌≡◌, ap, ◌∙◌, Bool, false, Option, none, some, List, ◌∷◌, arith, erase}
use wayland_java.Errors.{throw_out_of_memory, throw_io, throw_errno}
use wayland_java.Errors.Mutex.{
  throw_out_of_memory-Frame, throw_class-Frame, throw_errno-Frame, throw_out_of_memory_total,
  throw_class_total, throw_errno_total,
}
use wayland_java.Jni.{
  Call, io, World, M, pure, attempt, ◌>>◌, modify, call, sys, Frame, Post, returns, leaves, Triple,
  bind, total, allocate, free, open_fd, close_fd, jni_ptr,
}
use wayland_java.References.Ownership.{
  Owned, plus, Owned-Frame, Holds, call-Frame, jni_ptr-Frame, allocate-Owned, free-Owned,
}
use wayland_java.Shm.{get_flags, set_cloexec, protection, map_buffer}

pub record Open (w : World) (fs : List ℕ) (bs gs ws : ℕ → ℕ) : Type 0 where
  pub fds : w.fds ≡ fs
  pub account : Owned w false bs gs ws

module _ {fs : List ℕ} {bs gs ws : ℕ → ℕ} where
  Open-Frame : (w : World) {w' : World} → Frame w w' → Open w fs bs gs ws → Open w' fs bs gs ws
  Open-Frame w f o = record { fds = f.fds ∙ o.fds; account = Owned-Frame w f o.account }

module _ (fs : List ℕ) (bs gs ws : ℕ → ℕ) where
  abbrev pub Fds : World → Type 0
  Fds w = Open w fs bs gs ws

-- The primitives, on the descriptors.
module _ {fs : List ℕ} {bs gs ws : ℕ → ℕ} where
  framed-Fds :
      {A : Type 0} {m : M A}
      → ((w : World) → w.locked ≡ false → Frame w (m w).1)
      → Triple (Fds fs bs gs ws) m (λ _. Fds fs bs gs ws) (Fds fs bs gs ws)
  framed-Fds {A} {m} k = record { apply = λ w o. go (m w) (Open-Frame w (k w o.account.mutex) o) }
    where
      go :
          (r : Option A × World)
          → Fds fs bs gs ws r.1
          → Post (λ _. Fds fs bs gs ws) (Fds fs bs gs ws) r
      go (none, w') p = leaves p
      go (some a, w') p = returns p

  -- What changes no descriptor acts on the account alone.
  lift_account :
      {A : Type 0} {m : M A} {cs : ℕ → ℕ} {Q : A → ℕ → ℕ}
      → ((w : World) → (m w).1.fds ≡ w.fds)
      → Triple (Holds false bs gs ws) m (λ a. Holds false (Q a) gs ws) (Holds false cs gs ws)
      → Triple (Fds fs bs gs ws) m (λ a. Fds fs (Q a) gs ws) (Fds fs cs gs ws)
  lift_account {A} {m} {cs} {Q} k t = record {
    apply = λ w o. go (m w) (t.apply w o.account) (k w ∙ o.fds);
  }
    where
      go :
          (r : Option A × World)
          → Post (λ a. Holds false (Q a) gs ws) (Holds false cs gs ws) r
          → r.1.fds ≡ fs
          → Post (λ a. Fds fs (Q a) gs ws) (Fds fs cs gs ws) r
      go (some a, w') (returns o) e = returns (record { fds = e; account = o })
      go (none, w') (leaves o) e = leaves (record { fds = e; account = o })

  pub get_flags-Fds :
      (fd : ℕ) → Triple (Fds fs bs gs ws) (get_flags fd) (λ _. Fds fs bs gs ws) (Fds fs bs gs ws)
  unfolding get_flags
  get_flags-Fds fd = framed-Fds λ w _. ground arith

  pub set_cloexec-Fds :
      (fd flags : ℕ)
      → Triple (Fds fs bs gs ws) (set_cloexec fd flags) (λ _. Fds fs bs gs ws) (Fds fs bs gs ws)
  unfolding set_cloexec
  set_cloexec-Fds fd flags = framed-Fds λ w _. ground arith

  pub call-Fds :
      (c : Call) → Triple (Fds fs bs gs ws) (call c) (λ _. Fds fs bs gs ws) (Fds fs bs gs ws)
  call-Fds c = framed-Fds λ w _. call-Frame c w

  pub jni_ptr-Fds :
      (c : Call) → Triple (Fds fs bs gs ws) (jni_ptr c) (λ _. Fds fs bs gs ws) (Fds fs bs gs ws)
  jni_ptr-Fds c = framed-Fds λ w _. jni_ptr-Frame c w

  pub allocate-Fds :
      Triple (Fds fs bs gs ws) allocate (λ p. Fds fs (plus p bs) gs ws) (Fds fs bs gs ws)
  unfolding allocate
  allocate-Fds = lift_account (λ w. ground arith) allocate-Owned

  pub open_fd-Fds :
      (c : Call)
      → Triple (Fds fs bs gs ws) (open_fd c) (λ n. Fds (n ∷ fs) bs gs ws) (Fds fs bs gs ws)
  unfolding open_fd
  open_fd-Fds c =
      bind {Q = λ _. Fds fs bs gs ws} {m = sys c}
        {f = λ n. modify (λ w. record w { fds = n ∷ w.fds }) >> pure n}
        (framed-Fds λ w _. ground arith)
        λ n. record {
          apply = λ w o. returns (record {
            fds = ap (λ l. n ∷ l) o.fds;
            account = record {
              blocks = o.account.blocks;
              globals = o.account.globals;
              weaks = o.account.weaks;
              solid = o.account.solid;
              safe = o.account.safe;
              mutex = o.account.mutex;
            };
          });
        }

  pub map_buffer-Fds :
      (fd size : ℕ) (read_only : Bool)
      → Triple
          (Fds fs bs gs ws)
          (map_buffer fd size read_only)
          (λ _. Fds fs bs gs ws)
          (Fds fs bs gs ws)
  unfolding map_buffer
  map_buffer-Fds fd size read_only =
      bind {Q = λ _. Fds fs bs gs ws} {m = sys (Call.mmap fd size (protection read_only))}
        {f = λ n. modify (λ w. record w { mappings = n ∷ w.mappings }) >> pure n}
        (framed-Fds λ w _. ground arith)
        λ n. record {
          apply = λ w o. returns (record {
            fds = o.fds;
            account = record {
              blocks = o.account.blocks;
              globals = o.account.globals;
              weaks = o.account.weaks;
              solid = o.account.solid;
              safe = o.account.safe;
              mutex = o.account.mutex;
            };
          });
        }

module _ {fs : List ℕ} {bs gs ws : ℕ → ℕ} {E : World → Type 0} where
  total-Fds :
      {m : M (Unit {0})}
      → ((w : World) → w.locked ≡ false → Frame w (m w).1)
      → ((w : World) → (m w).0 ≡ some tt)
      → Triple (Fds fs bs gs ws) m (λ _. Fds fs bs gs ws) E
  total-Fds {m} k r =
      total λ w o. (tt, (m w).1, (λ i. (r w i, (m w).1)), Open-Frame w (k w o.account.mutex) o)

  pub errno-Fds : Triple (Fds fs bs gs ws) throw_errno (λ _. Fds fs bs gs ws) E
  errno-Fds = total-Fds throw_errno-Frame throw_errno_total

  pub no_memory-Fds : Triple (Fds fs bs gs ws) throw_out_of_memory (λ _. Fds fs bs gs ws) E
  no_memory-Fds = total-Fds throw_out_of_memory-Frame throw_out_of_memory_total

  pub io-Fds : Triple (Fds fs bs gs ws) throw_io (λ _. Fds fs bs gs ws) E
  unfolding throw_io
  io-Fds = total-Fds (throw_class-Frame io) (throw_class_total io)

  pub close_fd-Fds :
      (n : ℕ) → Triple (Fds (n ∷ fs) bs gs ws) (attempt (close_fd n)) (λ _. Fds fs bs gs ws) E
  unfolding close_fd erase
  close_fd-Fds n = record {
    apply = λ w o. returns (record {
      fds = ground (arith, ap (erase n) o.fds);
      account =
          Owned-Frame (record w { fds = erase n w.fds }) (ground arith)
            (record {
              blocks = o.account.blocks;
              globals = o.account.globals;
              weaks = o.account.weaks;
              solid = o.account.solid;
              safe = o.account.safe;
              mutex = o.account.mutex;
            });
    });
  }

  pub free-Fds : (p : ℕ) → Triple (Fds fs (plus p bs) gs ws) (free p) (λ _. Fds fs bs gs ws) E
  unfolding free
  free-Fds p = record {
    apply = λ w o. go (free p w) ((free-Owned {E = E} p).apply w o.account) (ground arith);
  }
    where
      go :
          (r : Option (Unit {0}) × World)
          → Post (λ _. Holds false bs gs ws) E r
          → r.1.fds ≡ fs
          → Post (λ _. Fds fs bs gs ws) E r
      go (some a, w') (returns o) e = returns (record { fds = e; account = o })
      go (none, w') (leaves o) e = leaves o

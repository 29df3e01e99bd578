-- ===== src/Shm/Returned.antt =====
-- What the native methods of ShmPool leave open, from any world whose account is in order and
-- whose mutex is free.
use wayland_java.Prelude.{ℕ, Bool, List, ◌∷◌}
use wayland_java.Jni.{World, Post}
use wayland_java.Shm.{create_tmp_file, map_target}
use wayland_java.Shm.Balance.{create_tmp_file-Fds, KeptOpen, map_target-Fds}
use wayland_java.Shm.Descriptors.{Fds}

module _ (fs : List ℕ) (bs gs ws : ℕ → ℕ) (w : World) (o : Fds fs bs gs ws w) where
  -- From a balanced account with the descriptors `fs` open, createTmpFileNative returns the one
  -- descriptor that it has opened besides, or fails with `fs` open; the block of the file's name
  -- is freed on every path.
  pub create_tmp_file-balanced :
      Post (λ n. Fds (n ∷ fs) bs gs ws) (Fds fs bs gs ws) (create_tmp_file w)
  create_tmp_file-balanced = (create_tmp_file-Fds fs bs gs ws).apply w o

  -- From a balanced account with the descriptors `fs` open, mapNative up to its buffer either fails
  -- with `fs` open, or succeeds and returns what `mmap`, its last call, answers; and then, where it
  -- was asked for a duplicate, the descriptor that it has mapped is one more that is left open.
  pub map_target-balanced :
      (fd size : ℕ) (dup_fd read_only : Bool)
      → Post
          (KeptOpen fs bs gs ws fd size dup_fd read_only)
          (Fds fs bs gs ws)
          (map_target fd size dup_fd read_only w)
  map_target-balanced fd size dup_fd read_only =
      (map_target-Fds fs bs gs ws fd size dup_fd read_only).apply w o

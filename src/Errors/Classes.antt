-- ===== src/Errors/Classes.antt =====
-- wl_jni_throw_from_errno: which exception a function throws.
use wayland_java.Prelude.{ℕ, ◌≡◌, ◌≢◌, true, ◌||◌, arith, ◌==◌, if◌then◌else◌}
use wayland_java.Errors.{
  oom_class, throw_out_of_memory, ensure_object_cache, throw_class, enomem, einval, eio, ebadf,
  enoent, throw_errno_class, throw_from_errno,
}
use wayland_java.Jni.{Throwable, out_of_memory, illegal_argument, io, runtime, World, throw, static}

-- The exception that stands for an error number.
unfoldable pub class_of_errno : ℕ → Throwable
class_of_errno err =
    if err == enomem
    then out_of_memory
    else if err == einval
    then illegal_argument
    else if (err == eio) || ((err == ebadf) || (err == enoent))
    then io
    else runtime

module _ (w : World) (ready : w.loaded ≡ true) (has_class : static oom_class w ≢ 0) where
  pub throw_out_of_memory-ready : throw_out_of_memory w ≡ throw out_of_memory w
  unfolding throw_out_of_memory
  throw_out_of_memory-ready = ground arith

  pub throw_class-ready : (t : Throwable) → throw_class t w ≡ throw t w
  unfolding throw_class
  throw_class-ready t = ground arith

  -- Once the cache is loaded, an error number makes exactly the exception of its class pending,
  -- and changes nothing else.
  pub throw_from_errno-class : (err : ℕ) → throw_from_errno err w ≡ throw (class_of_errno err) w
  unfolding throw_from_errno throw_errno_class ensure_object_cache throw_out_of_memory
      class_of_errno
  throw_from_errno-class err = ground arith

-- ===== src/Errors/Mutex.antt =====
-- The object cache and the functions that throw (wayland-jni.c): the mutex, and the depth of the
-- calls that load the cache.
use wayland_java.Prelude.{ℕ, String, ◌≡◌, refl, ◌≢◌, true, false, some, [], arith}
use wayland_java.Errors.{
  oom_class, load_utf8, fill_cache, load_cache, ensure_object_cache_with, throw_at,
  throw_out_of_memory, ensure_object_cache, throw_class, throw_null_pointer, throw_illegal_argument,
  throw_illegal_state, throw_by_name, throw_errno_class, throw_from_errno, throw_errno,
}
use wayland_java.Jni.{
  Call, Throwable, null_pointer, illegal_argument, illegal_state, io, World, jni, Frame, static_in,
  static,
}
use wayland_java.Loading.{run_lookups, slots, is_strict, is_well_ordered}
use wayland_java.Loading.Sound.{run_lookups-Frame, run_lookups-AllSet}
use wayland_java.Loading.Tables.{object_cache}

oom_class-first :
    (cls : ℕ) (w : World)
    → (run_lookups cls object_cache w).0 ≡ some tt
    → static oom_class (run_lookups cls object_cache w).1 ≢ 0
unfolding slots object_cache is_well_ordered is_strict
oom_class-first cls w h = (run_lookups-AllSet cls [] object_cache w refl refl h).0

load_utf8-Frame : (w : World) → static oom_class w ≢ 0 → Frame w (load_utf8 (throw_at 1) w).1
unfolding load_utf8 throw_at static_in
load_utf8-Frame w h = ground arith

fill_cache-Frame : (w : World) → Frame w (fill_cache (throw_at 1) w).1
unfolding fill_cache
fill_cache-Frame w =
    let v = (jni (Call.ensure_local_capacity 3) w).1 in
    let u = (run_lookups 0 object_cache v).1 in
    ground (arith, run_lookups-Frame 0 object_cache v, oom_class-first 0 v, load_utf8-Frame u)

load_cache-Frame : (w : World) → w.locked ≡ false → Frame w (load_cache (throw_at 1) w).1
unfolding load_cache
load_cache-Frame w h = ground (arith, fill_cache-Frame (record w { locked = true }))

-- Loading the cache from an unlocked mutex takes it once and gives it back on every path, runs out
-- of no depth, and leaves every block, reference, descriptor and native structure alone.
pub ensure_object_cache-Frame : (w : World) → w.locked ≡ false → Frame w (ensure_object_cache w).1
unfolding ensure_object_cache
ensure_object_cache-Frame w h = ground (arith, load_cache-Frame w h)

pub throw_out_of_memory-Frame : (w : World) → w.locked ≡ false → Frame w (throw_out_of_memory w).1
unfolding throw_out_of_memory ensure_object_cache_with
throw_out_of_memory-Frame w h = ground (arith, load_cache-Frame w h)

pub throw_class-Frame : (t : Throwable) (w : World) → w.locked ≡ false → Frame w (throw_class t w).1
unfolding throw_class
throw_class-Frame t w h = ground (arith, load_cache-Frame w h)

pub throw_by_name-Frame : (n : String) (w : World) → Frame w (throw_by_name n w).1
unfolding throw_by_name
throw_by_name-Frame n w = ground arith

throw_errno_class-Frame :
    (err : ℕ) (w : World) → w.locked ≡ false → Frame w (throw_errno_class err w).1
unfolding throw_errno_class
throw_errno_class-Frame err w h =
    ground (arith, throw_class-Frame illegal_argument w h, throw_class-Frame io w h)

-- Throwing for an error number from an unlocked mutex takes it at most once at a time and gives it
-- back, runs out of no depth, and leaves every block, reference, descriptor and native structure
-- alone, whatever the number and whatever fails on the way.
pub throw_from_errno-Frame :
    (err : ℕ) (w : World) → w.locked ≡ false → Frame w (throw_from_errno err w).1
unfolding throw_from_errno
throw_from_errno-Frame err w h = ground (
  arith,
  throw_out_of_memory-Frame w h,
  ensure_object_cache-Frame w h,
  throw_errno_class-Frame err (ensure_object_cache w).1,
)

pub throw_null_pointer-Frame : (w : World) → w.locked ≡ false → Frame w (throw_null_pointer w).1
unfolding throw_null_pointer
throw_null_pointer-Frame w h = throw_class-Frame null_pointer w h

pub throw_illegal_argument-Frame :
    (w : World) → w.locked ≡ false → Frame w (throw_illegal_argument w).1
unfolding throw_illegal_argument
throw_illegal_argument-Frame w h = throw_class-Frame illegal_argument w h

pub throw_illegal_state-Frame : (w : World) → w.locked ≡ false → Frame w (throw_illegal_state w).1
unfolding throw_illegal_state
throw_illegal_state-Frame w h = throw_class-Frame illegal_state w h

pub throw_errno-Frame : (w : World) → w.locked ≡ false → Frame w (throw_errno w).1
unfolding throw_errno
throw_errno-Frame w h = throw_from_errno-Frame w.errno w h

-- The functions that throw always return.
pub throw_out_of_memory_total : (w : World) → (throw_out_of_memory w).0 ≡ some tt
unfolding throw_out_of_memory
throw_out_of_memory_total w = ground arith

pub throw_class_total : (t : Throwable) (w : World) → (throw_class t w).0 ≡ some tt
unfolding throw_class
throw_class_total t w = ground arith

pub throw_by_name_total : (n : String) (w : World) → (throw_by_name n w).0 ≡ some tt
unfolding throw_by_name
throw_by_name_total n w = ground arith

throw_errno_class_total : (err : ℕ) (w : World) → (throw_errno_class err w).0 ≡ some tt
unfolding throw_errno_class
throw_errno_class_total err w =
    ground (arith, throw_class_total illegal_argument w, throw_class_total io w)

pub throw_errno_total : (w : World) → (throw_errno w).0 ≡ some tt
unfolding throw_errno throw_from_errno
throw_errno_total w =
    ground (
      arith,
      throw_out_of_memory_total w,
      throw_errno_class_total w.errno (ensure_object_cache w).1,
    )

-- ===== src/Errors.antt =====
-- The object cache of wayland-jni.c and the functions that throw: wl_jni_ensure_object_cache and
-- wl_jni_throw_*, with the mutex that the cache shares with the registry of references.
pub mod Mutex
pub mod Classes
pub mod Quiet
pub mod Answered
pub mod Caught
use wayland_java.Prelude.{
  ℕ, zero, suc, String, true, false, ◌||◌, none, some, [], ◌∷◌, ◌==◌, if◌then◌else◌,
}
use wayland_java.Jni.{
  Call, Throwable, out_of_memory, null_pointer, illegal_argument, illegal_state, io, runtime,
  by_name, M, pure, fail, attempt, gets, ◌>>=◌, ◌>>◌, modify, jni, throw, crash, call_ptr, jni_ptr,
  static, set_static,
}
use wayland_java.Loading.{run_lookups}
use wayland_java.Loading.Tables.{object_cache}

-- `pthread_mutex_lock` on the (non-recursive) mutex: a second lock by the same thread never returns.
unfoldable pub lock : M (Unit {0})
lock = modify (λ w. record w { fault = w.fault || w.locked; locked = true })

unfoldable pub unlock : M (Unit {0})
unlock = modify (λ w. record w { locked = false })

abbrev pub oom_class : String
oom_class = "java.lang.OutOfMemoryError.class"

-- The UTF-8 charset, by `Charset.forName`. `no_memory` is wl_jni_throw_OutOfMemoryError.
unfoldable pub load_utf8 : M (Unit {0}) → M (Unit {0})
unfolding jni_ptr call_ptr
load_utf8 no_memory = do
  cls ← jni_ptr (Call.find_class "java/nio/charset/Charset")
  mid ←
      jni_ptr
        (Call.get_static_method_id cls "forName" "(Ljava/lang/String;)Ljava/nio/charset/Charset;")
  name ← jni_ptr (Call.new_string_utf "UTF-8")
  charset ← jni_ptr (Call.call_method cls mid (name ∷ []))
  r ← attempt (call_ptr (Call.global_ref charset))
  elim r [
    | some v ↦ set_static "java.nio.charset.utf8" v
    | none ↦ do set_static "java.nio.charset.utf8" 0; no_memory; fail
  ]

-- What wl_jni_ensure_object_cache does under the lock.
unfoldable pub fill_cache : M (Unit {0}) → M (Unit {0})
unfolding jni
fill_cache no_memory = do
  jni (Call.ensure_local_capacity 3)
  run_lookups 0 object_cache
  load_utf8 no_memory
  modify (λ w. record w { loaded = true })

-- The part behind the first test: the lock, the second test, and the unlock on every path.
unfoldable pub load_cache : M (Unit {0}) → M (Unit {0})
unfolding lock unlock
load_cache no_memory = do
  lock
  again ← gets (λ w. w.loaded)
  r ← attempt (if again then pure tt else fill_cache no_memory)
  unlock
  elim r [ some _ ↦ pure tt | none ↦ fail ]

unfoldable pub ensure_object_cache_with : M (Unit {0}) → M (Unit {0})
ensure_object_cache_with no_memory w = if w.loaded then (some tt, w) else load_cache no_memory w

-- wl_jni_throw_OutOfMemoryError calls wl_jni_ensure_object_cache, which calls it again: `depth`
-- bounds the calls of one another, and running out of it is a fault.
unfoldable pub throw_at : ℕ → M (Unit {0})
throw_at zero w = crash w
throw_at (suc depth) w =
    if static oom_class w == 0
    then (let (r, w') = ensure_object_cache_with (throw_at depth) w in
        elim r [ none ↦ (some tt, w') | some _ ↦ throw out_of_memory w' ])
    else throw out_of_memory w

unfoldable pub throw_out_of_memory : M (Unit {0})
unfolding throw_at
throw_out_of_memory = throw_at 2

unfoldable pub ensure_object_cache : M (Unit {0})
unfolding ensure_object_cache_with
ensure_object_cache = ensure_object_cache_with (throw_at 1)

-- The functions that test the cache first: nothing is thrown where it cannot be loaded.
unfoldable pub throw_class : Throwable → M (Unit {0})
unfolding ensure_object_cache
throw_class t w =
    let (r, w') = ensure_object_cache w in elim r [ none ↦ (some tt, w') | some _ ↦ throw t w' ]

unfoldable pub throw_null_pointer : M (Unit {0})
unfolding throw_class
throw_null_pointer = throw_class null_pointer

unfoldable pub throw_illegal_argument : M (Unit {0})
unfolding throw_class
throw_illegal_argument = throw_class illegal_argument

unfoldable pub throw_illegal_state : M (Unit {0})
unfolding throw_class
throw_illegal_state = throw_class illegal_state

unfoldable pub throw_io : M (Unit {0})
unfolding throw_class
throw_io = throw_class io

-- wl_jni_throw_by_name: an exception of another class where the class is not found.
unfoldable pub throw_by_name : String → M (Unit {0})
unfolding jni_ptr
throw_by_name name w =
    let (r, w') = jni_ptr (Call.find_class name) w in
    elim r [ none ↦ (some tt, w') | some _ ↦ throw (by_name name) w' ]

-- The numbers of <errno.h> that wl_jni_throw_from_errno tests.
abbrev pub enomem : ℕ
enomem = 12

abbrev pub einval : ℕ
einval = 22

abbrev pub eio : ℕ
eio = 5

abbrev pub ebadf : ℕ
ebadf = 9

abbrev pub enoent : ℕ
enoent = 2

-- The `switch` of wl_jni_throw_from_errno.
unfoldable pub throw_errno_class : ℕ → M (Unit {0})
unfolding throw_illegal_argument throw_io
throw_errno_class err =
    if err == einval
    then throw_illegal_argument
    else if (err == eio) || ((err == ebadf) || (err == enoent))
    then throw_io
    else throw runtime

unfoldable pub throw_from_errno : ℕ → M (Unit {0})
throw_from_errno err w =
    if err == enomem
    then throw_out_of_memory w
    else (let (r, w') = ensure_object_cache w in
        elim r [ none ↦ (some tt, w') | some _ ↦ throw_errno_class err w' ])

-- `wl_jni_throw_from_errno(env, errno)`.
unfoldable pub throw_errno : M (Unit {0})
throw_errno w = throw_from_errno w.errno w

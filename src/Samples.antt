-- ===== src/Samples.antt =====
-- Worlds for the tests of the other modules.
use wayland_java.Prelude.{ℕ, refl, true, false, none, List, [], ◌∷◌, arith, count}
use wayland_java.Errors.{oom_class}
use wayland_java.Jni.{Call, Answer, done, Wrapper, NativeInterface, World}
use wayland_java.References.Ownership.{Owned}
use wayland_java.References.Pairs.{addresses, strong_refs, weak_refs}

-- Every call succeeds with the number 6.
abbrev pub generous : List Call → Call → Answer
generous past c = done 6

abbrev no_wrapper : Wrapper
no_wrapper = record { native = 0; linked = false; destroyed_by_owner = false; self_ref = 0 }

abbrev no_interface : NativeInterface
no_interface = record {
  name = 0;
  version = 0;
  methods = 0;
  requests = 0;
  method_messages = [];
  events = 0;
  event_methods = 0;
  event_messages = [];
}

-- The object cache is loaded, and nothing is allocated.
abbrev pub start_world : World
start_world = record {
  outside = generous;
  log = [];
  errno = 0;
  pending = none;
  blocks = [];
  globals = [];
  weaks = [];
  fds = 4 ∷ [];
  mappings = [];
  fault = false;
  loaded = true;
  locked = false;
  statics = (oom_class, 1) ∷ [];
  pairs = [];
  target = λ n. n;
  long_field = λ n. 0;
  wrappers = λ n. no_wrapper;
  listeners = λ n. record { linked = false; self_ref = 0 };
  handlers = λ n. record { jhandler = 0; mid = 0; linked = false };
  interfaces = λ n. no_interface;
}

-- Nothing is held.
abbrev pub nothing : ℕ → ℕ
nothing _ = 0

pub start-Owned : Owned start_world false nothing nothing nothing
unfolding count addresses strong_refs weak_refs
start-Owned = record {
  blocks = λ a. refl;
  globals = λ a. refl;
  weaks = λ a. refl;
  solid = refl;
  safe = refl;
  mutex = refl;
}

-- One weak reference to the object behind 9 is registered for the pointer 5.
abbrev pub registered : World
registered = record start_world {
  blocks = 2 ∷ [];
  weaks = 9 ∷ [];
  pairs = record { address = 2; ptr = 5; jobj = 9; is_weak = true } ∷ [];
}

pub registered-Owned : Owned registered false nothing nothing nothing
unfolding count addresses strong_refs weak_refs
registered-Owned = record {
  blocks = λ a. ground arith;
  globals = λ a. ground arith;
  weaks = λ a. ground arith;
  solid = refl;
  safe = refl;
  mutex = refl;
}

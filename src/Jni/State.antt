-- ===== src/Jni/State.antt =====
-- The state that the native sources read and change, and the monad of a native function.
use wayland_java.Prelude.{ℕ, String, ◌≡◌, Bool, Option, none, some, List, ◌∷◌, ◌==◌, if◌then◌else◌}
use wayland_java.Jni.Calls.{Call, Answer, done, failed, Throwable, thrown}

-- `struct ptr_jobject_pair`, with the address of its block.
pub record Pair : Type 0 where
  pub address : ℕ
  pub ptr : ℕ
  pub jobj : ℕ
  pub is_weak : Bool

-- `struct wl_jni_object_wrapper`. Of its `wl_listener` only `linked` matters: whether it stands in
-- a signal's list. `wl_list_remove` of a link that stands in no list follows a NULL pointer.
pub record Wrapper : Type 0 where
  pub native : ℕ
  pub linked : Bool
  pub destroyed_by_owner : Bool
  pub self_ref : ℕ

-- `struct wl_jni_destroy_listener`.
pub record Listener : Type 0 where
  pub linked : Bool
  pub self_ref : ℕ

-- `struct event_handler` of the event loop.
pub record Handler : Type 0 where
  pub jhandler : ℕ
  pub mid : ℕ
  pub linked : Bool

-- `struct wl_message`, by the addresses of its blocks.
pub record Message : Type 0 where
  pub name : ℕ
  pub signature : ℕ
  pub types : ℕ

-- `struct wl_jni_interface` with the two arrays of messages: `methods` and `events` are their blocks,
-- and `requests` and `event_methods` those of the method identifiers.
pub record NativeInterface : Type 0 where
  pub name : ℕ
  pub version : ℕ
  pub methods : ℕ
  pub requests : ℕ
  pub method_messages : List Message
  pub events : ℕ
  pub event_methods : ℕ
  pub event_messages : List Message

pub record World : Type 0 where
  -- what answers a call, from the calls before it: any function at all
  pub outside : List Call → Call → Answer
  pub log : List Call
  pub errno : ℕ
  pub pending : Option Throwable
  -- live blocks of `malloc`, live global and weak references, open descriptors and mappings
  pub blocks : List ℕ
  pub globals : List ℕ
  pub weaks : List ℕ
  pub fds : List ℕ
  pub mappings : List ℕ
  -- set by undefined behaviour: a double free, a dead reference, a lock taken twice
  pub fault : Bool
  -- the static variables of the sources
  pub loaded : Bool
  pub locked : Bool
  pub statics : List (String × ℕ)
  pub pairs : List Pair
  -- the Java object that a reference stands for, and the `long` field of each object that holds a
  -- native pointer
  pub target : ℕ → ℕ
  pub long_field : ℕ → ℕ
  -- the native structures, by address
  pub wrappers : ℕ → Wrapper
  pub listeners : ℕ → Listener
  pub handlers : ℕ → Handler
  pub interfaces : ℕ → NativeInterface

-- A native function: `none` is the early return of an error path (NULL, -1 or 0).
abbrev pub M : Type 0 → Type 0
M A = World → Option A × World

module _ {A : Type 0} where
  abbrev pub pure : A → M A
  pure a w = (some a, w)

  abbrev pub fail : M A
  fail w = (none, w)

  -- Runs a cleanup where the first part returns early.
  abbrev pub or_else : M A → M A → M A
  or_else m h w = let (r, w') = m w in elim r [ none ↦ h w' | some a ↦ (some a, w') ]

  -- The result as a value, for a caller that tests it.
  abbrev pub attempt : M A → M (Option A)
  attempt m w = let (r, w') = m w in (some r, w')

  abbrev pub gets : (World → A) → M A
  gets f w = (some (f w), w)

infixl 5 ◌>>=◌ ◌>>◌
abbrev pub ◌>>=◌ : {A B : Type 0} → M A → (A → M B) → M B
◌>>=◌ m f w = let (r, w') = m w in elim r [ none ↦ (none, w') | some a ↦ f a w' ]

abbrev pub ◌>>◌ : {A B : Type 0} → M A → M B → M B
m >> k = m >>= λ _. k

abbrev pub modify : (World → World) → M (Unit {0})
modify f w = (some tt, f w)

-- `if (c) m`.
abbrev pub when : Bool → M (Unit {0}) → M (Unit {0})
when c m w = if c then m w else (some tt, w)

abbrev pub update {ℓ} : {A : Type ℓ} → (ℕ → A) → ℕ → A → ℕ → A
update f k v j = if j == k then v else f j

abbrev pub record_call : World → Call → World
record_call w c = record w { log = c ∷ w.log }

-- A call whose failure sets nothing.
unfoldable pub call : Call → M ℕ
call c w = elim (w.outside w.log c) [
  | done n ↦ (some n, record_call w c)
  | failed e ↦ (none, record_call w c)
]

-- A call that cannot fail.
unfoldable pub ask : Call → M ℕ
ask c w = elim (w.outside w.log c) [
  | done n ↦ (some n, record_call w c)
  | failed e ↦ (some 0, record_call w c)
]

-- A system call: a failure sets `errno`, and a success leaves it alone.
unfoldable pub sys : Call → M ℕ
sys c w = elim (w.outside w.log c) [
  | done n ↦ (some n, record_call w c)
  | failed e ↦ (none, record w { log = c ∷ w.log; errno = e })
]

-- A JNI call: a failure leaves an exception pending.
unfoldable pub jni : Call → M ℕ
jni c w = elim (w.outside w.log c) [
  | done n ↦ (some n, record_call w c)
  | failed e ↦ (none, record w { log = c ∷ w.log; pending = some (thrown e) })
]

-- What a function leaves alone that only looks things up and throws.
pub record Frame (w w' : World) : Type 0 where
  pub outside : w'.outside ≡ w.outside
  pub blocks : w'.blocks ≡ w.blocks
  pub globals : w'.globals ≡ w.globals
  pub weaks : w'.weaks ≡ w.weaks
  pub fds : w'.fds ≡ w.fds
  pub mappings : w'.mappings ≡ w.mappings
  pub fault : w'.fault ≡ w.fault
  pub locked : w'.locked ≡ w.locked
  pub pairs : w'.pairs ≡ w.pairs
  pub target : w'.target ≡ w.target
  pub long_field : w'.long_field ≡ w.long_field
  pub wrappers : w'.wrappers ≡ w.wrappers
  pub listeners : w'.listeners ≡ w.listeners
  pub handlers : w'.handlers ≡ w.handlers

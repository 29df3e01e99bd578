-- ===== src/Interface/Native.antt =====
-- interface.c: the native interface of a Java Interface, with its messages, and its destruction.
pub mod Messages
pub mod Balance
pub mod Made
use wayland_java.Prelude.{ℕ, zero, suc, String, true, false, List, [], ◌==◌, if◌then◌else◌}
use wayland_java.Errors.{throw_out_of_memory, throw_null_pointer}
use wayland_java.Interface.Native.Messages.{destroy_up, destroy_down, fill_messages}
use wayland_java.Jni.{
  Call, NativeInterface, M, pure, fail, or_else, gets, ◌>>=◌, ◌>>◌, modify, update, ask, jni,
  allocate, free, crash, static, get_long_field, set_long_field, checked, require,
}
use wayland_java.Strings.{string_to_utf8}

abbrev pub set_interface : ℕ → NativeInterface → M (Unit {0})
set_interface p s = modify (λ w. record w { interfaces = update w.interfaces p s })

-- `text_at` and `bytes_at` are the C string at an address, as a text and as its characters, and
-- `from_java` is wl_jni_interface_from_java for the types of the messages.
module _ (text_at : ℕ → String) (bytes_at : ℕ → List ℕ) (from_java : ℕ → M ℕ) where
  -- The events of create_native_interface, behind its requests, up to the pointer's field.
  unfoldable pub build_events : ℕ → ℕ → NativeInterface → M ℕ
  unfolding jni ask allocate free fill_messages destroy_down set_long_field
  build_events jinterface p s = do
    events_field ← gets (static "Interface.events")
    jarr ← jni (Call.get_object_field jinterface events_field)
    require jarr throw_null_pointer
    event_count ← ask (Call.get_array_length jarr)
    events ← or_else allocate (throw_out_of_memory >> fail)
    ids ← or_else allocate (do throw_out_of_memory; free events; fail)
    (built, complete) ←
        fill_messages text_at bytes_at from_java jinterface true jarr [] 0 event_count
    or_else
        (do
          if complete then pure tt else fail
          set_interface p
              (record s { events = events; event_methods = ids; event_messages = built })
          set_long_field jinterface p)
        (do destroy_down built; free events; free ids; fail)
    pure p

  -- The version and the requests, and then the events.
  unfoldable pub build_methods : ℕ → ℕ → ℕ → M ℕ
  unfolding jni ask allocate free fill_messages destroy_down build_events
  build_methods jinterface p name = do
    version_field ← gets (static "Interface.version")
    version ← jni (Call.get_int_field jinterface version_field)
    requests_field ← gets (static "Interface.requests")
    jarr ← jni (Call.get_object_field jinterface requests_field)
    require jarr throw_null_pointer
    method_count ← ask (Call.get_array_length jarr)
    methods ← or_else allocate (throw_out_of_memory >> fail)
    ids ← or_else allocate (do throw_out_of_memory; free methods; fail)
    (built, complete) ←
        fill_messages text_at bytes_at from_java jinterface false jarr [] 0 method_count
    or_else
        (do
          if complete then pure tt else fail
          build_events jinterface p (record {
            name = name;
            version = version;
            methods = methods;
            requests = ids;
            method_messages = built;
            events = 0;
            event_methods = 0;
            event_messages = [];
          }))
        (do destroy_down built; free methods; free ids; fail)

  -- create_native_interface.
  unfoldable pub create_native_interface : ℕ → M ℕ
  unfolding allocate jni free build_methods string_to_utf8
  create_native_interface jinterface = do
    p ← or_else allocate (throw_out_of_memory >> fail)
    or_else
        (do
          name_field ← gets (static "Interface.name")
          jstr ← jni (Call.get_object_field jinterface name_field)
          name ← checked (string_to_utf8 jstr)
          or_else (build_methods jinterface p name) (do free name; fail))
        (do free p; fail)

-- wl_jni_interface_from_java. The types of its messages are interfaces, which it makes too: `depth`
-- bounds the calls of one another, and running out of it is the stack that is exhausted.
unfoldable pub native_interface_from_java : (ℕ → String) → (ℕ → List ℕ) → ℕ → ℕ → M ℕ
unfolding get_long_field create_native_interface
native_interface_from_java text_at bytes_at zero jinterface = crash >> fail
native_interface_from_java text_at bytes_at (suc depth) jinterface =
    if jinterface == 0 then fail else (do
      p ← get_long_field jinterface
      if p == 0
          then create_native_interface text_at bytes_at
              (native_interface_from_java text_at bytes_at depth) jinterface
          else pure p)

-- Interface.destroyNative behind the lookup of the native interface.
unfoldable pub release_interface : ℕ → ℕ → M (Unit {0})
unfolding free destroy_up set_long_field
release_interface jinterface p = do
  s ← gets (λ w. w.interfaces p)
  destroy_up s.event_messages
  free s.events
  destroy_up s.method_messages
  free s.methods
  free s.name
  free s.requests
  free s.event_methods
  free p
  set_long_field jinterface 0

-- Interface.destroyNative: an interface that has no native one is given one first.
unfoldable pub interface_destroy_native : (ℕ → String) → (ℕ → List ℕ) → ℕ → ℕ → M (Unit {0})
unfolding native_interface_from_java release_interface
interface_destroy_native text_at bytes_at depth jinterface = do
  p ← checked (native_interface_from_java text_at bytes_at depth jinterface)
  if p == 0 then fail else release_interface jinterface p

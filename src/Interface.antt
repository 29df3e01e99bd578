-- ===== src/Interface.antt =====
-- interface.c: the Java method of a message, found by the JNI signature that the message's own
-- signature stands for.
pub mod Signature
pub mod Leak
pub mod Native
use Prim.Native.String.{◌++◌ as ◌+++◌}
use wayland_java.Prelude.{
  ℕ, ◌-◌, ◌^◌, String, len, Bool, ◌||◌, Option, none, some, List, [], ◌∷◌, ltb, ◌==◌, if◌then◌else◌,
}
use wayland_java.Jni.{
  Call, M, pure, fail, or_else, gets, ◌>>=◌, ◌>>◌, ask, jni, crash, jni_ptr, static,
}
use wayland_java.Loading.{slot}
use wayland_java.Strings.{string_to_default}

-- The JNI types that are classes.
abbrev pub proxy_type : String
proxy_type = "Lorg/freedesktop/wayland/client/Proxy;"

abbrev pub resource_type : String
resource_type = "Lorg/freedesktop/wayland/server/Resource;"

abbrev pub fixed_type : String
fixed_type = "Lorg/freedesktop/wayland/Fixed;"

abbrev pub string_type : String
string_type = "Ljava/lang/String;"

-- What the loop of get_java_method appends for a character, by the kind of the interface: for
-- events, or for requests.
unfoldable pub appended : Bool → ℕ → Option String
appended events c =
    if (c == b'i') || ((c == b'u') || (c == b'h'))
    then some "I"
    else if c == b'f'
    then some fixed_type
    else if c == b's'
    then some string_type
    else if c == b'o'
    then some (if events then proxy_type else resource_type)
    else if c == b'n'
    then some (if events then proxy_type else "I")
    else none

-- All that the loop appends, in order.
unfoldable pub pieces : Bool → List ℕ → List String
pieces events [] = []
pieces events (c ∷ s) =
    let r = pieces events s in elim (appended events c) [ none ↦ r | some t ↦ t ∷ r ]

unfoldable pub join : List String → String
join [] = ""
join (t ∷ ts) = t +++ join ts

-- The characters that `jsignature` is given, without the final NUL.
unfoldable pub java_signature : Bool → String → List ℕ → String
java_signature events proxy_name signature =
    "(L" +++ (proxy_name +++ (";" +++ (join (pieces events signature) +++ ")V")))

-- MAX_JSIG_LEN, the size of `jsignature`.
abbrev pub max_jsig_len : ℕ
max_jsig_len = 1024

-- get_proxy_java_name of the class in the member `slot`. Where the conversion returns NULL, the
-- loop over the name follows it.
unfoldable pub get_proxy_java_name : ℕ → String → M ℕ
unfolding jni
get_proxy_java_name jinterface slot = do
  class_field ← gets (static slot)
  cls ← jni (Call.get_object_field jinterface class_field)
  get_name ← gets (static "interface.java.lang.Class.getName")
  jname ← jni (Call.call_method cls get_name [])
  or_else (string_to_default jname) (crash >> fail)

-- The index of the last element by a `jsize`: -1 in an empty array.
abbrev pub last_index : ℕ → ℕ
last_index n = if n == 0 then 2 ^ 32 - 1 else n - 1

-- get_java_method of a message with the name `message_name` and the signature `signature`.
-- `text_at` is the C string at an address, and a text that does not fit is a fault.
unfoldable pub get_java_method : (ℕ → String) → ℕ → String → List ℕ → Bool → M ℕ
unfolding jni ask jni_ptr
get_java_method text_at jinterface message_name signature events = do
  list_field ←
      gets (static (if events then "Interface.eventsIfaces" else "Interface.requestsIfaces"))
  class_list ← jni (Call.get_object_field jinterface list_field)
  n ← ask (Call.get_array_length class_list)
  cls ← jni (Call.get_object_array_element class_list (last_index n))
  proxy_name ←
      get_proxy_java_name jinterface
        (if events then "Interface.proxyClass" else "Interface.resourceClass")
  let text : String = java_signature events (text_at proxy_name) signature
  if ltb (len text) max_jsig_len then pure tt else crash
  jni_ptr (Call.get_method_id cls message_name text)

-- ===== src/Interface/Native/Messages.antt =====
-- interface.c: the messages of a native interface, each with three blocks.
use wayland_java.Prelude.{
  ℕ, zero, suc, ◌+◌, String, Bool, true, false, none, some, List, [], ◌∷◌, ◌++◌,
}
use wayland_java.Errors.{throw_out_of_memory, throw_null_pointer}
use wayland_java.Interface.{get_java_method}
use wayland_java.Jni.{
  Call, Message, M, pure, fail, or_else, attempt, gets, ◌>>=◌, ◌>>◌, ask, jni, allocate, free,
  return_if_pending, static, checked, require, written,
}
use wayland_java.Strings.{string_to_utf8, string_to_default}

-- destroy_native_message.
unfoldable pub destroy_native_message : Message → M (Unit {0})
unfolding free
destroy_native_message msg = do free msg.name; free msg.signature; free msg.types

-- The loops over an array of messages: from the first to the last, and back.
unfoldable pub destroy_up : List Message → M (Unit {0})
unfolding destroy_native_message
destroy_up [] = pure tt
destroy_up (msg ∷ msgs) = do destroy_native_message msg; destroy_up msgs

unfoldable pub destroy_down : List Message → M (Unit {0})
unfolding destroy_native_message
destroy_down [] = pure tt
destroy_down (msg ∷ msgs) = do destroy_down msgs; destroy_native_message msg

-- `text_at` and `bytes_at` are the C string at an address, as a text and as its characters, and
-- `from_java` is wl_jni_interface_from_java.
module _ (text_at : ℕ → String) (bytes_at : ℕ → List ℕ) (from_java : ℕ → M ℕ) where
  -- The types of a message, from type `i` on, with `n` left.
  unfoldable pub fill_types : ℕ → ℕ → ℕ → M (Unit {0})
  unfolding jni
  fill_types jarr i zero = pure tt
  fill_types jarr i (suc n) = do
    jobj ← jni (Call.get_object_array_element jarr i)
    checked (from_java jobj)
    fill_types jarr (i + 1) n

  -- The types of a message, behind its name and its signature.
  unfoldable pub message_types : ℕ → M ℕ
  unfolding jni ask allocate free fill_types
  message_types jmsg = do
    types_field ← gets (static "Interface.Message.types")
    jarr ← jni (Call.get_object_field jmsg types_field)
    require jarr throw_null_pointer
    num_types ← ask (Call.get_array_length jarr)
    types ← or_else allocate (throw_out_of_memory >> fail)
    or_else (fill_types jarr 0 num_types) (do free types; fail)
    pure types

  -- The signature, and then the types.
  unfoldable pub message_body : ℕ → ℕ → M Message
  unfolding jni free string_to_default message_types
  message_body jmsg name = do
    signature_field ← gets (static "Interface.Message.signature")
    jstr ← jni (Call.get_object_field jmsg signature_field)
    signature ← checked (string_to_default jstr)
    types ← or_else (message_types jmsg) (do free signature; fail)
    pure (record { name = name; signature = signature; types = types })

  unfoldable pub get_native_message : ℕ → M Message
  unfolding jni free string_to_utf8 message_body
  get_native_message jmsg = do
    name_field ← gets (static "Interface.Message.name")
    jstr ← jni (Call.get_object_field jmsg name_field)
    name ← checked (string_to_utf8 jstr)
    or_else (message_body jmsg name) (do free name; fail)

  -- One round of a loop of create_native_interface: the message, where it is made and its
  -- method found.
  unfoldable pub next_message : ℕ → Bool → ℕ → ℕ → M Message
  unfolding jni get_native_message get_java_method
  next_message jinterface events jarr i = do
    jobj ← jni (Call.get_object_array_element jarr i)
    result ← attempt (get_native_message jobj)
    return_if_pending
    msg ← written result
    attempt (get_java_method text_at jinterface (text_at msg.name) (bytes_at msg.signature) events)
    return_if_pending
    pure msg

  -- The loop from message `i` on, with `n` left, behind those `built` so far, and whether it got to
  -- its end. The message whose method is not found is in no list.
  unfoldable pub fill_messages : ℕ → Bool → ℕ → List Message → ℕ → ℕ → M (List Message × Bool)
  unfolding next_message
  fill_messages jinterface events jarr built i zero = pure (built, true)
  fill_messages jinterface events jarr built i (suc n) = do
    result ← attempt (next_message jinterface events jarr i)
    elim result [
      | some msg ↦ fill_messages jinterface events jarr (built ++ msg ∷ []) (i + 1) n
      | none ↦ pure (built, false)
    ]

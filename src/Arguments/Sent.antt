-- ===== src/Arguments/Sent.antt =====
-- The tail that Proxy.marshal (client/proxy.c) and Resource.postEvent (server/resource.c) share: the
-- arguments of a message are converted, sent, and destroyed.
use wayland_java.Prelude.{ℕ, String, Bool, List, [], ◌∷◌}
use wayland_java.Arguments.{arguments_from_java_destroy, arguments_from_java}
use wayland_java.Arguments.Counts.{count_if}
use wayland_java.Errors.{throw_out_of_memory}
use wayland_java.Jni.{
  M, fail, or_else, attempt, ◌>>=◌, ◌>>◌, allocate, free, return_if_pending, wayland_call, written,
}

-- `conversion` is the caller's object conversion, `is_counted` its count of the arguments, and
-- `function` the function of libwayland that sends. An exception leaves `args` allocated.
unfoldable pub send_array : (ℕ → M ℕ) → (ℕ → Bool) → String → ℕ → ℕ → ℕ → List ℕ → M (Unit {0})
unfolding allocate free wayland_call
send_array conversion is_counted function target opcode jargs signature = do
  args ← or_else allocate (throw_out_of_memory >> fail)
  result ← attempt (arguments_from_java conversion jargs signature (count_if is_counted signature))
  return_if_pending
  values ← written result
  wayland_call function (target ∷ opcode ∷ args ∷ [])
  arguments_from_java_destroy values signature
  free args

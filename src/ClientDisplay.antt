-- ===== src/ClientDisplay.antt =====
-- client/display.c: the Display of a client, which is a Proxy whose native object is a `wl_display`.
pub mod Balance
use wayland_java.Prelude.{ℕ, String, none, some, List, [], ◌∷◌, ◌==◌, if◌then◌else◌}
use wayland_java.Errors.{throw_null_pointer, throw_illegal_state, throw_errno}
use wayland_java.EventQueue.{event_queue_from_java}
use wayland_java.Jni.{
  Call, M, pure, fail, or_else, attempt, ◌>>=◌, ◌>>◌, free, jni_ptr, wayland_ptr, wayland_call,
  wayland_int, wayland_get, checked, require,
}
use wayland_java.Proxy.{proxy_from_java}
use wayland_java.Strings.{string_to_default}

-- display_create_from_native: a display without a Java object is disconnected.
unfoldable pub display_create_from_native : ℕ → ℕ → M ℕ
unfolding jni_ptr wayland_call
display_create_from_native cls display =
    or_else
      (do
        ctor ← jni_ptr (Call.get_method_id cls "<init>" "(J)V")
        jni_ptr (Call.new_object cls ctor (display ∷ [])))
      (do wayland_call "wl_display_disconnect" (display ∷ []); fail)

-- Display.connect of a descriptor.
unfoldable pub connect_fd : ℕ → ℕ → M ℕ
unfolding wayland_ptr display_create_from_native
connect_fd cls fd = do
  display ← or_else (wayland_ptr "wl_display_connect_to_fd" (fd ∷ [])) (throw_errno >> fail)
  display_create_from_native cls display

-- Display.connect of a name. Where an exception is pending, a name is not freed.
unfoldable pub connect_name : ℕ → ℕ → M ℕ
unfolding string_to_default wayland_ptr free display_create_from_native
connect_name cls jname = do
  name ← checked (string_to_default jname)
  display ← attempt (wayland_ptr "wl_display_connect" (name ∷ []))
  free name
  elim display [ none ↦ throw_errno >> fail | some d ↦ display_create_from_native cls d ]

-- Display.disconnectNative.
unfoldable pub disconnect : ℕ → M (Unit {0})
unfolding proxy_from_java wayland_call
disconnect jdisplay = do
  display ← proxy_from_java jdisplay
  if display == 0 then pure tt else wayland_call "wl_display_disconnect" (display ∷ [])

-- The native display, or an exception where there is none.
unfoldable pub connected_display : ℕ → M ℕ
unfolding proxy_from_java
connected_display jdisplay = do
  display ← proxy_from_java jdisplay
  require display throw_illegal_state
  pure display

-- Display.getFD.
unfoldable pub get_fd : ℕ → M ℕ
unfolding connected_display wayland_get
get_fd jdisplay = do
  display ← connected_display jdisplay
  wayland_get "wl_display_get_fd" (display ∷ [])

-- A function of libwayland on the display, and an exception by `errno` where it fails.
unfoldable pub call_display : String → List ℕ → M (Unit {0})
unfolding wayland_int
call_display name arguments = do
  r ← attempt (wayland_int name arguments)
  elim r [ some _ ↦ pure tt | none ↦ throw_errno ]

-- Display.dispatch.
unfoldable pub display_dispatch : ℕ → M (Unit {0})
unfolding connected_display call_display
display_dispatch jdisplay = do
  display ← connected_display jdisplay
  call_display "wl_display_dispatch" (display ∷ [])

-- Display.dispatchPending.
unfoldable pub display_dispatch_pending : ℕ → M (Unit {0})
unfolding connected_display call_display
display_dispatch_pending jdisplay = do
  display ← connected_display jdisplay
  call_display "wl_display_dispatch_pending" (display ∷ [])

-- The queue that a Display dispatches, or an exception where there is none.
unfoldable pub given_queue : ℕ → M ℕ
unfolding event_queue_from_java
given_queue jqueue = do
  queue ← checked (event_queue_from_java jqueue)
  require queue throw_null_pointer
  pure queue

-- Display.dispatchQueue.
unfoldable pub display_dispatch_queue : ℕ → ℕ → M (Unit {0})
unfolding connected_display given_queue call_display
display_dispatch_queue jdisplay jqueue = do
  display ← connected_display jdisplay
  queue ← given_queue jqueue
  call_display "wl_display_dispatch_queue" (display ∷ queue ∷ [])

-- Display.dispatchQueuePending.
unfoldable pub display_dispatch_queue_pending : ℕ → ℕ → M (Unit {0})
unfolding connected_display given_queue call_display
display_dispatch_queue_pending jdisplay jqueue = do
  display ← connected_display jdisplay
  queue ← given_queue jqueue
  call_display "wl_display_dispatch_queue_pending" (display ∷ queue ∷ [])

-- Display.flush.
unfoldable pub display_flush : ℕ → M (Unit {0})
unfolding connected_display call_display
display_flush jdisplay = do
  display ← connected_display jdisplay
  call_display "wl_display_flush" (display ∷ [])

-- Display.roundtrip.
unfoldable pub display_roundtrip : ℕ → M (Unit {0})
unfolding connected_display call_display
display_roundtrip jdisplay = do
  display ← connected_display jdisplay
  call_display "wl_display_roundtrip" (display ∷ [])

-- ===== src/Tests/Sources.antt =====
-- The event sources on concrete worlds.
use wayland_java.Prelude.{◌≡◌, refl, true, false, none, some, List, [], ◌∷◌, has, erase}
use wayland_java.EventLoop.{create_source_wrapper, add_source, event_handler_destroy}
use wayland_java.EventLoop.Dangling.{add_source-dangles}
use wayland_java.EventLoop.Handlers.{
  IsInstalled, add_source-IsInstalled, event_handler_destroy-releases,
}
use wayland_java.Jni.{Call, Answer, done, failed, World, allocate}
use wayland_java.Samples.{start_world}

added_source :
    (add_source 3 8 "wl_event_loop_add_idle" [] "EventLoop.IdleHandler.handleIdle" start_world).0
    ≡ some 7
unfolding add_source create_source_wrapper allocate
added_source = refl

add_source-IsInstalled_example :
    IsInstalled
      (add_source 3 8 "wl_event_loop_add_idle" [] "EventLoop.IdleHandler.handleIdle" start_world).1
      7
add_source-IsInstalled_example =
    add_source-IsInstalled 3 8 "wl_event_loop_add_idle" [] "EventLoop.IdleHandler.handleIdle" 6 7
      start_world refl added_source

abbrev installed : World
installed = record start_world {
  blocks = 2 ∷ [];
  globals = 9 ∷ [];
  handlers = λ n. record { jhandler = 9; mid = 1; linked = true };
}

installed-IsInstalled : IsInstalled installed 2
unfolding has
installed-IsInstalled = record { block = refl; live = refl; linked = refl; self = refl }

event_handler_destroy-releases_example :
    ((event_handler_destroy 2 installed).1.blocks ≡ erase 2 (2 ∷ []))
    × ((event_handler_destroy 2 installed).1.globals ≡ erase 9 (9 ∷ []))
    × (((event_handler_destroy 2 installed).1.handlers 2).linked ≡ false)
    × ((event_handler_destroy 2 installed).1.fault ≡ false)
event_handler_destroy-releases_example =
    event_handler_destroy-releases 2 installed installed-IsInstalled

-- The Java method throws.
abbrev throwing : World
throwing = record installed { outside = λ past c. failed 3 }

-- Only the creation of an object fails.
abbrev no_objects : List Call → Call → Answer
no_objects past (Call.new_object c i a) = failed 3
no_objects past c = done 6

abbrev without_objects : World
without_objects = record start_world { outside = no_objects }

add_source-dangles_example :
    let r =
      add_source 3 8 "wl_event_loop_add_timer" [] "EventLoop.TimerEventHandler.handleTimerEvent"
        without_objects in
    (r.0 ≡ none) × (r.1.blocks ≡ []) × (r.1.globals ≡ 7 ∷ []) × ((r.1.handlers 7).linked ≡ true)
add_source-dangles_example =
    add_source-dangles 3 8 "wl_event_loop_add_timer" []
      "EventLoop.TimerEventHandler.handleTimerEvent" 6 6 6 3 without_objects refl refl refl refl

-- ===== src/Lib.antt =====
-- A model of the native half of wayland-java: the C sources below
-- wayland/src/main/native/src, which bind libwayland to Java through JNI.
--
-- The parts, with the file of each and the source that it translates:
--   Jni         the state of the native code, its calls and its early returns (wayland-jni.c)
--   Loading     the lookups of classes, fields and methods: each `initializeJNI`
--   Errors      the object cache and the functions that throw (wayland-jni.c)
--   References  the registry that maps native pointers to Java objects (wayland-jni.c)
--   Strings     the conversions of strings (wayland-jni.c)
--   Fixed       the conversions of fixed-point numbers (fixed.c)
--   Shm         the native methods of ShmPool (shm_pool.c)
--   Interface   the JNI signature of a message, get_java_method, and native interfaces (interface.c)
--   Arguments   signatures, and arguments from and to Java (object.c), with what the messages of
--               client/proxy.c and server/resource.c share
--   Wrapper     NativeObjectWrapper (server/native_object_wrapper.c)
--   Listener    DestroyListener (server/listener.c)
--   EventLoop   event loops and their sources (server/event_loop.c)
--   Global      globals (server/global.c)
--   EventQueue  event queues (client/event_queue.c)
--   Proxy       proxies: requests and the dispatch of events (client/proxy.c)
--   ClientDisplay   the display of a client (client/display.c)
--   Resource    resources: events, protocol errors and the dispatch of requests (server/resource.c)
--   Client      clients (server/client.c), and Client/Start the start of a program
--   ServerDisplay   the display of a server (server/display.c)
--   Samples and Tests   concrete worlds, and the theorems on them
-- A function of the source has its name without the prefix `wl_jni_` or the mangled class name:
-- `wl_jni_register_reference` is `register_reference`, and the native method `mapNative` is
-- `map_native`. A second definition beside it, such as `attach` for `add_to_signal`, is the part
-- behind the guards.
--
-- How they interact: every part throws by Errors, whose cache Loading fills under the mutex that
-- it shares with References. Wrapper registers its objects with References, EventLoop reaches its
-- loop through Wrapper, and Arguments converts strings by Strings. Client is a Wrapper; Proxy and
-- Resource send and dispatch messages by Arguments; Resource and Client attach listeners by
-- Listener; the display of
-- a client is a Proxy, and that of a server stands in References. Where a function needs a native
-- interface, its conversion is a parameter, which the theorems fill with that of Interface/Native.
--
-- A native function takes a World to an optional result and a World; no result is the early return
-- of an error path. The world has the static variables, the structures by their address, and lists
-- of the blocks, references, descriptors and mappings that are held. A release of what is not
-- held, a link removed from no list, and a mutex locked twice set `fault`. What JNI, the C library
-- and libwayland answer is a parameter: any function of the calls so far. They leave the native
-- state alone, except that a failed system call sets `errno` and a failed JNI call an exception.
--
-- An account (References/Ownership) compares what is held with what the pairs of the registry own
-- and what the rest of the program holds. The functions that load the cache and throw call one
-- another; the depth 2 of `throw_out_of_memory` is enough, since running out of it is a fault and
-- Errors/Mutex shows that none is added. The interfaces that refer to one another are made to a depth
-- that is a parameter, and running out of it is a fault, as an exhausted stack is.
--
-- Not modelled: threads other than one; local references, which the virtual machine takes back on
-- return; the texts of exceptions; the characters of strings; Java code that calls native methods
-- while a native function waits for it; an exception that is pending before a function is called,
-- where the function does not test for one. In Client.startClient the process that `fork` makes is
-- the branch in which `fork` answers 0, and the two descriptors of `socketpair` are one answer. The
-- memory behind a message (its signature, a C string, an array) is a parameter of its function.
--
-- The global references that static variables keep, to the classes and to the charset, are calls
-- whose answers are stored; they are not among the held references, so that no account says whether
-- a cache that is filled again after a failure loses those of the first time. NewWeakGlobalRef
-- answers NULL only together with an exception: that it also does so for an object that is gone is
-- left out, and so is, in wl_jni_register_weak_reference, an exception that was pending before.
-- interface.c and server/resource.c each define a variable `java` that is not static, and are linked
-- into one library; the model keeps the two apart. A `size_t` has 64 bits.
pub mod Prelude
pub mod Jni
pub mod Loading
pub mod Errors
pub mod References
pub mod Strings
pub mod Fixed
pub mod Shm
pub mod Arguments
pub mod Interface
pub mod Wrapper
pub mod Listener
pub mod EventLoop
pub mod Global
pub mod EventQueue
pub mod Proxy
pub mod ClientDisplay
pub mod Resource
pub mod Client
pub mod ServerDisplay
pub mod Samples
pub mod Tests

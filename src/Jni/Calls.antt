-- ===== src/Jni/Calls.antt =====
-- What the native sources call and do not define: the JNI table of wayland-jni.c's JNIEnv, the C
-- library, and libwayland. A call is a value, and the outside world answers it.
use wayland_java.Prelude.{ℕ, String, List}

-- A call that leaves the library, with the arguments that its answer can depend on. Objects,
-- references and addresses are numbers, and NULL is 0.
pub data Call : Type 0 where
  -- the C library
  malloc getenv mkstemp socketpair fork : Call
  dup getfd close : ℕ → Call
  setfd : ℕ → ℕ → Call
  mmap : ℕ → ℕ → ℕ → Call
  munmap : ℕ → ℕ → Call
  ftruncate : ℕ → ℕ → Call
  -- JNI: classes, methods and fields
  find_class : String → Call
  get_method_id get_static_method_id get_field_id : ℕ → String → String → Call
  get_object_class : ℕ → Call
  -- JNI: references
  ensure_local_capacity push_local_frame : ℕ → Call
  pop_local_frame : Call
  global_ref weak_global_ref local_ref : ℕ → Call
  -- JNI: objects, arrays and strings
  new_object : ℕ → ℕ → List ℕ → Call
  call_method : ℕ → ℕ → List ℕ → Call
  get_object_field get_int_field : ℕ → ℕ → Call
  get_object_array_element : ℕ → ℕ → Call
  get_array_length get_byte_array_region get_direct_buffer_address get_direct_buffer_capacity :
      ℕ → Call
  new_direct_byte_buffer : ℕ → ℕ → Call
  new_byte_array set_byte_array_region : ℕ → Call
  new_string_utf : String → Call
  put_long_field : ℕ → ℕ → Call
  -- JNI: the pending exception, and the class of an object
  exception_occurred : Call
  is_instance_of : ℕ → ℕ → Call
  -- libwayland and the rest of the C library, by the function's name and its arguments; a field that
  -- is read of a structure of libwayland goes by its name
  wayland : String → List ℕ → Call

-- The answer: a number, or a failure. For the C library the number of a failure is `errno`; for
-- JNI it stands for the exception that the virtual machine has raised.
pub data Answer : Type 0 where
  done : ℕ → Answer
  failed : ℕ → Answer

-- A pending Java exception: one that the library has thrown, by its class, or one that the virtual
-- machine or Java code has raised.
pub data Throwable : Type 0 where
  out_of_memory null_pointer illegal_argument illegal_state io runtime : Throwable
  by_name : String → Throwable
  thrown : ℕ → Throwable

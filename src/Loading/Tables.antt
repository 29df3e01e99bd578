-- ===== src/Loading/Tables.antt =====
-- The tables of lookups: the object cache of wayland-jni.c, and each class's `initializeJNI`. The
-- struct `java` of interface.c and the one of resource.c go by a prefix: both are external symbols
-- of one library and may be linked to one storage, which the tables do not show.
use wayland_java.Prelude.{List, [], ◌∷◌}
use wayland_java.Loading.{Lookup, given_class, class, loose_class, method, field, class_method}

-- wl_jni_ensure_object_cache, from `EnsureLocalCapacity` to the charset.
unfoldable pub object_cache : List Lookup
object_cache =
    class "java.lang.OutOfMemoryError.class" "java/lang/OutOfMemoryError"
    ∷ class "java.lang.NullPointerException.class" "java/lang/NullPointerException"
    ∷ class "java.lang.IllegalArgumentException.class" "java/lang/IllegalArgumentException"
    ∷ class "java.lang.IllegalStateException.class" "java/lang/IllegalStateException"
    ∷ class "java.lang.RuntimeException.class" "java/lang/RuntimeException"
    ∷ class_method "java.lang.Integer.intValue" "java/lang/Integer" "intValue" "()I"
    ∷ class "java.io.IOException.class" "java/io/IOException"
    ∷ class "java.lang.String.class" "java/lang/String"
    ∷ method "java.lang.String.init_bytes_charset" "java.lang.String.class" "<init>"
        "([BLjava/nio/charset/Charset;)V"
    ∷ method "java.lang.String.getBytes" "java.lang.String.class" "getBytes" "()[B"
    ∷ method "java.lang.String.getBytes_charset" "java.lang.String.class" "getBytes"
        "(Ljava/nio/charset/Charset;)[B"
    ∷ []

-- Interface.initializeJNI, behind the assignment of the class itself.
unfoldable pub interface_table : List Lookup
interface_table =
    field "Interface.name" "Interface.class" "name" "Ljava/lang/String;"
    ∷ field "Interface.version" "Interface.class" "version" "I"
    ∷ field "Interface.requests" "Interface.class" "requests"
        "[Lorg/freedesktop/wayland/Interface$Message;"
    ∷ field "Interface.requestsIfaces" "Interface.class" "requestsIfaces" "[Ljava/lang/Class;"
    ∷ field "Interface.events" "Interface.class" "events"
        "[Lorg/freedesktop/wayland/Interface$Message;"
    ∷ field "Interface.eventsIfaces" "Interface.class" "eventsIfaces" "[Ljava/lang/Class;"
    ∷ field "Interface.proxyClass" "Interface.class" "proxyClass" "Ljava/lang/Class;"
    ∷ field "Interface.resourceClass" "Interface.class" "resourceClass" "Ljava/lang/Class;"
    ∷ field "Interface.interface_ptr" "Interface.class" "interface_ptr" "J"
    ∷ loose_class "Interface.Message.class" "org/freedesktop/wayland/Interface$Message"
    ∷ field "Interface.Message.name" "Interface.Message.class" "name" "Ljava/lang/String;"
    ∷ field "Interface.Message.signature" "Interface.Message.class" "signature" "Ljava/lang/String;"
    ∷ field "Interface.Message.types" "Interface.Message.class" "types"
        "[Lorg/freedesktop/wayland/Interface;"
    ∷ loose_class "interface.java.lang.Class.class" "java/lang/Class"
    ∷ method "interface.java.lang.Class.getName" "interface.java.lang.Class.class" "getName"
        "()Ljava/lang/String;"
    ∷ []

unfoldable pub event_loop_table : List Lookup
event_loop_table =
    given_class "EventLoop.class"
    ∷ method "EventLoop.init_long" "EventLoop.class" "<init>" "(J)V"
    ∷ class "EventLoop.EventSource.class" "org/freedesktop/wayland/server/EventLoop$EventSource"
    ∷ field "EventLoop.EventSource.source_ptr" "EventLoop.EventSource.class" "source_ptr" "J"
    ∷ field "EventLoop.EventSource.handler_ptr" "EventLoop.EventSource.class" "handler_ptr" "J"
    ∷ method "EventLoop.EventSource.init_long_long" "EventLoop.EventSource.class" "<init>" "(JJ)V"
    ∷ class "EventLoop.FileDescriptorEventHandler.class"
        "org/freedesktop/wayland/server/EventLoop$FileDescriptorEventHandler"
    ∷ method "EventLoop.FileDescriptorEventHandler.handleFileDescriptorEvent"
        "EventLoop.FileDescriptorEventHandler.class" "handleFileDescriptorEvent" "(II)I"
    ∷ class "EventLoop.TimerEventHandler.class"
        "org/freedesktop/wayland/server/EventLoop$TimerEventHandler"
    ∷ method "EventLoop.TimerEventHandler.handleTimerEvent" "EventLoop.TimerEventHandler.class"
        "handleTimerEvent" "()I"
    ∷ class "EventLoop.SignalEventHandler.class"
        "org/freedesktop/wayland/server/EventLoop$SignalEventHandler"
    ∷ method "EventLoop.SignalEventHandler.handleSignalEvent" "EventLoop.SignalEventHandler.class"
        "handleSignalEvent" "(I)I"
    ∷ class "EventLoop.IdleHandler.class" "org/freedesktop/wayland/server/EventLoop$IdleHandler"
    ∷ method "EventLoop.IdleHandler.handleIdle" "EventLoop.IdleHandler.class" "handleIdle" "()V"
    ∷ []

unfoldable pub resource_table : List Lookup
resource_table =
    given_class "Resource.class"
    ∷ field "Resource.resource_ptr" "Resource.class" "resource_ptr" "J"
    ∷ field "Resource.data" "Resource.class" "data" "Ljava/lang/Object;"
    ∷ class "RequestError.class" "org/freedesktop/wayland/server/RequestError"
    ∷ field "RequestError.errorCode" "RequestError.class" "errorCode" "I"
    ∷ class "resource.java.lang.OutOfMemoryError.class" "java/lang/OutOfMemoryError"
    ∷ class "resource.java.lang.NoSuchMethodError.class" "java/lang/NoSuchMethodError"
    ∷ class "resource.java.lang.Throwable.class" "java/lang/Throwable"
    ∷ method "resource.java.lang.Throwable.getMessage" "resource.java.lang.Throwable.class"
        "getMessage" "()Ljava/lang/String;"
    ∷ []

unfoldable pub client_table : List Lookup
client_table =
    given_class "Client.class"
    ∷ method "Client.init_long" "Client.class" "<init>" "(J)V"
    ∷ method "Client.init_display_int" "Client.class" "<init>"
        "(Lorg/freedesktop/wayland/server/Display;I)V"
    ∷ []

unfoldable pub proxy_table : List Lookup
proxy_table =
    given_class "Proxy.class"
    ∷ field "Proxy.proxy_ptr" "Proxy.class" "proxy_ptr" "J"
    ∷ field "Proxy.userData" "Proxy.class" "userData" "Ljava/lang/Object;"
    ∷ field "Proxy.listener" "Proxy.class" "listener" "Ljava/lang/Object;"
    ∷ field "Proxy.iface" "Proxy.class" "iface" "Lorg/freedesktop/wayland/Interface;"
    ∷ []

unfoldable pub destroy_listener_table : List Lookup
destroy_listener_table =
    given_class "DestroyListener.class"
    ∷ field "DestroyListener.listener_ptr" "DestroyListener.class" "listener_ptr" "J"
    ∷ method "DestroyListener.onDestroy" "DestroyListener.class" "onDestroy" "()V"
    ∷ []

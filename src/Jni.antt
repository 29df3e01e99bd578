-- ===== src/Jni.antt =====
-- The native side of a Java binding: the calls that leave it, the state, memory and references.
mod Calls
mod State
mod Memory
mod Triples
unfoldable pub use Calls.*
unfoldable pub use State.*
unfoldable pub use Memory.*
unfoldable pub use Triples.*

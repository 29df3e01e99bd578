-- ===== src/Tests.antt =====
-- The theorems on concrete worlds.
mod Registry
mod Structures
mod Sources
mod Messages
mod Globals
mod Requests
mod Interfaces

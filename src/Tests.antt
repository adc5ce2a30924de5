-- ===== src/Tests.antt =====
-- Runs of the theorems at concrete inputs.
pub mod Setup
pub mod Memory
pub mod Files
pub mod Patterns
pub mod Texts
pub mod Tables
pub mod Calls
pub mod Headers
pub mod Nodes
pub mod Streams
pub mod Threads
pub mod Deploy
pub mod Stopping
pub mod Announce
pub mod Listening
pub mod Serving

-- ===== src/Node.antt =====
-- stros.c: the life of a node.
pub mod Accept
pub mod Config
pub mod Topics
pub mod Master
pub mod Register
pub mod Listen
pub mod Serve
pub mod Life

-- ===== src/Api.antt =====
-- api.c: what the nodes say to one another.
pub mod Types
pub mod Topic
pub mod Header
pub mod Data
pub mod Handler
pub mod Stream
pub mod Recv
pub mod Connection

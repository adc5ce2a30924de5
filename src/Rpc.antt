-- ===== src/Rpc.antt =====
-- rpc.c: XML-RPC values to and from XML, and the HTTP messages that carry them.
pub mod Xml
pub mod Parse
pub mod Generate
pub mod Markup
pub mod Plain
pub mod RoundTrip
pub mod Http

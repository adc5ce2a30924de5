-- ===== src/Request.antt =====
-- request.c and response.c: method calls and their answers, over the HTTP messages of rpc.c.
-- The XML library is the parameter `parse_xml`: the root element of a text, or nothing where
-- `XMLDoc_parse_buffer_DOM` fails.
pub mod Call
pub mod Reply
pub mod Exchange
pub mod CallRoundTrip
pub mod Params
pub mod RoundTrip
pub mod Answered

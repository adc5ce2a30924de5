-- ===== src/Utils.antt =====
-- utils.c: hashing, URL coding, trimming, number patterns, file extensions and MIME types.
pub mod Hash
pub mod Url
pub mod Trim
pub mod Match
pub mod Mime
pub mod Files
pub mod Format

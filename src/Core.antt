-- ===== src/Core.antt =====
-- runtime/src/core: encodings that the protocols share.
pub mod Base64
pub mod Text

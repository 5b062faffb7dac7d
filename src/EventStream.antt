-- ===== src/EventStream.antt =====
-- runtime/src/eventstream: the message framing of event streams and the envelope inside.
pub mod Value
pub mod Frame
pub mod Envelope

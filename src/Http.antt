-- ===== src/Http.antt =====
-- runtime/src/http: the pieces of HTTP messages.
pub mod Uri
pub mod Headers
pub mod TraceContext
pub mod Message
pub mod Dispatch
pub mod Endpoint
pub mod WebSocketPair
pub mod Http1
pub mod Socket

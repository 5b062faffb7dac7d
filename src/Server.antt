-- ===== src/Server.antt =====
-- runtime/src/server: routing and admission of requests.
pub mod Router
pub mod OriginGate

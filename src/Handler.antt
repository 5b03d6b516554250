-- ===== src/Handler.antt =====
-- src/handler/: routing, responses and the state that requests share.
pub mod Http
pub mod State
pub mod Response
pub mod Routing
pub mod Handle

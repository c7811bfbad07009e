-- ===== src/Proto.antt =====
-- src/nightshade-proto: what travels between the operators' clients and the daemon.
pub mod Frame
pub mod SessionId

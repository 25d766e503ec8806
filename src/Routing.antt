-- ===== src/Routing.antt =====
-- muxrd/src/multiplexer/routing.rs, muxrd/src/grpc/helpers.rs: from a session's id to the backend and
-- from a request to the relay that carries it out.
pub mod Names
pub mod Session
pub mod Resolve
pub mod Control
pub mod Isolation

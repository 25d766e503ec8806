-- ===== src/Mux.antt =====
-- muxrd/src/multiplexer: the neutral types that every backend shares.
pub mod Layout
pub mod Events
pub mod Agents
pub mod Context
pub mod Zellij

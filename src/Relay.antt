-- ===== src/Relay.antt =====
-- muxrd/src/relay: the relay between a client's stream and a terminal, and the registries that the
-- relays share.
pub mod Attach
pub mod Fullscreen
pub mod Wire
pub mod Control
pub mod Inbound
pub mod Reader

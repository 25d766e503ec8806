-- ===== src/Herdr/Kernel.antt =====
-- muxrd/src/multiplexer/herdr/subscribe.rs: the kernel that turns herdr's two subscriptions into
-- events of the daemon's bus.
pub mod Lines
pub mod Backoff
pub mod Bootstrap
pub mod Coverage
pub mod Connect
pub mod Run
pub mod Pump
pub mod Resync

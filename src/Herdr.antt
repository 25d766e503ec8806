-- ===== src/Herdr.antt =====
-- muxrd/src/multiplexer/herdr: the parts of the herdr backend that keep state of their own.
pub mod PaneRegistry
pub mod TabRegistry
pub mod LineReader
pub mod Kernel
pub mod Resume

-- ===== src/Notify.antt =====
-- muxrd/src/notify: the devices that are notified, and the notifier.
pub mod Devices
pub mod Sender

-- ===== src/UsbMux.antt =====
-- parser/usbmux.rs: the packets between the daemon and its clients.
pub mod Kinds
pub mod Header
pub mod Packet
pub mod Request

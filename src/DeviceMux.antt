-- ===== src/DeviceMux.antt =====
-- parser/device_mux: the packets between the daemon and a device on its USB endpoints.
pub mod Protocol
pub mod Header
pub mod Payload
pub mod Packet
pub mod Builder

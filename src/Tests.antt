-- ===== src/Tests.antt =====
-- Concrete inputs, and the theorems at them.
mod Codec
mod Packets
mod Devices
mod Connections
mod Clients
mod Handlers
mod Watchers
mod Backends
mod Forwards
mod Drivers
mod Transfers
mod Tables

-- ===== src/Router.antt =====
-- device/packet_router.rs: `PacketRouter`, which hands the packets from the device to the
-- connections by their port.
pub mod Laws
use rusbmux.Base.{ℕ, ◌≡◌, Bool, true, false, not, Option, none, some, List, [], if◌then◌else◌}
use rusbmux.Base.Map.{get, insert, remove, retain}
use rusbmux.Extern.{TcpHeader}
use rusbmux.Channel.{Channel, bounded, Sent, sent, refused, full, send}
use rusbmux.DeviceMux.Packet.{UsbDevicePacket}

-- The sending end of each connection's channel, by source port.
pub record PacketRouter : Type 0 where
  pub conns : List (ℕ × Channel UsbDevicePacket)

abbrev pub new : PacketRouter
new = record { conns = [] }

pub cleanup_dead : PacketRouter → PacketRouter
cleanup_dead r = record { conns = retain (λ port conn. not conn.disconnected) r.conns }

-- An entry that the port has is replaced.
unfoldable pub register : ℕ → PacketRouter → PacketRouter
register port r = record { conns = insert port bounded r.conns }

unfoldable pub clear : PacketRouter → PacketRouter
clear r = record { conns = [] }

unfoldable pub unregister : ℕ → PacketRouter → PacketRouter
unregister port r = record { conns = remove port r.conns }

-- `packet.tcp_hdr.as_ref().map_or(0, |h| h.destination_port)`
abbrev pub port_of : Option TcpHeader → ℕ
port_of none = 0
port_of (some h) = h.destination_port

-- `blocked`: the task waits for a lock that it holds itself, and for ever.
pub data Routed : Type 0 where
  delivered : PacketRouter → Routed
  no_connection : Routed
  waiting : Routed
  blocked : Routed

-- The guard that `conns.get` returns is alive where the send has failed, and `unregister` removes an
-- entry of the same shard: `DashMap::remove` waits for the guard.
abbrev pub after_send : PacketRouter → ℕ → Sent UsbDevicePacket → Routed
after_send r port (sent c) = delivered (record { conns = insert port c r.conns })
after_send r port refused = blocked
after_send r port full = waiting

abbrev pub route_to : PacketRouter → ℕ → UsbDevicePacket → Option (Channel UsbDevicePacket) → Routed
route_to r port packet none = no_connection
route_to r port packet (some conn) = after_send r port (send packet conn)

unfoldable pub route : UsbDevicePacket → PacketRouter → Routed
route packet r = let port = port_of packet.tcp_hdr in route_to r port packet (get port r.conns)

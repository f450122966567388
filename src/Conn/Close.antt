-- ===== src/Conn/Close.antt =====
-- conn/usb.rs: what closing a connection leaves behind, and what the router then does.
use rusbmux.Base.{
  ℕ, ◌≡◌, ◌≤◌, true, false, Option, none, some, [], ◌∷◌, ◌++◌, arith, length, ◌==◌, ap,
  if◌then◌else◌,
}
use rusbmux.Base.Map.{get, get-remove}
use rusbmux.Extern.{Extern}
use rusbmux.Channel.{Channel, capacity}
use rusbmux.DeviceMux.Packet.{UsbDevicePacket}
use rusbmux.DeviceMux.Builder.{rst}
use rusbmux.Router.{PacketRouter, route, blocked, port_of, unregister}
use rusbmux.Router.Laws.{route_cases}
use rusbmux.Conn.{UsbDeviceConn, done, close, drop, own_packet}

unregister_lem :
    (port j : ℕ) (r : PacketRouter)
    → get j (unregister port r).conns ≡ (if port == j then none else get j r.conns)
unfolding unregister
unregister_lem port j r = get-remove port j r.conns

-- A connection that `close` has closed is marked, its RST stands last in the channel to the device, and
-- the router has forgotten its port and kept every other.
pub close_done :
    (x : Extern) (c d : UsbDeviceConn) (r : PacketRouter) (s : Option PacketRouter)
    (tx tx' : Channel UsbDevicePacket) (j : ℕ)
    → close x c (some r) tx ≡ done (d, s, tx')
    → (d.dropped ≡ true)
      × (tx'.queue ≡ tx.queue ++ own_packet x c rst ∷ [])
      × (s ≡ some (unregister c.source_port r))
      × (get j (unregister c.source_port r).conns
          ≡ (if c.source_port == j then none else get j r.conns))
unfolding close
close_done x c d r s tx tx' j e =
    (ground arith, ground arith, ground arith, unregister_lem c.source_port j r)

-- A connection that is dropped while the channel to the device is full leaves its port in the router.
pub drop_when_full :
    (x : Extern) (c : UsbDeviceConn) (r : PacketRouter) (tx : Channel UsbDevicePacket)
    → c.dropped ≡ false
    → capacity ≤ length tx.queue
    → drop x c (some r) tx ≡ (record c { dropped = true }, some r, tx)
unfolding drop
drop_when_full x c r tx d l = ground arith

-- A connection that is dropped while the channel to the device is full leaves the router as it was, so
-- that its port stays there. Where the receiver of the port is gone, the next packet for it blocks
-- `route` for ever, which unregisters the port while it holds the guard of its entry.
pub dropped_port_blocks :
    (x : Extern) (c : UsbDeviceConn) (r : PacketRouter) (tx : Channel UsbDevicePacket)
    (entry : Channel UsbDevicePacket) (packet : UsbDevicePacket)
    → c.dropped ≡ false
    → capacity ≤ length tx.queue
    → port_of packet.tcp_hdr ≡ c.source_port
    → get c.source_port r.conns ≡ some entry
    → entry.disconnected ≡ true
    → ((drop x c (some r) tx).1 ≡ some r) × (route packet r ≡ blocked)
dropped_port_blocks x c r tx entry packet d l p g e =
    (ap (λ t. t.1) (drop_when_full x c r tx d l), (route_cases packet r entry (rw p g)).0.0 e)

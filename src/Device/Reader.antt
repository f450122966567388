-- ===== src/Device/Reader.antt =====
-- device/usb.rs: `start_reader_loop`, which reads the packets of the device and routes them.
pub mod Rounds
use rusbmux.Base.{ℕ, zero, suc, ◌≡◌, Bool, true, false, Option, none, some, List, [], if◌then◌else◌}
use rusbmux.Base.Parser.{Reply, ok, err, panic, undefined, IoErrorKind, ParseError, io}
use rusbmux.Extern.{Extern, TcpHeader}
use rusbmux.Backend.{opaque_id}
use rusbmux.Router.{PacketRouter, Routed, delivered, no_connection, waiting, blocked, route}
use rusbmux.DeviceMux.Packet
use rusbmux.DeviceMux.Packet.{UsbDevicePacket}
use rusbmux.Device.{UsbDevice, increment_recv_seq}

-- What a round comes to: the loop goes on with the bytes that are left; it ends, having told the
-- watcher that the device is gone (by its id and opaque id) where that has set the channel for it; the router waits for room in a
-- connection's channel, or for a lock for ever; or the task panics.
pub data Round : Type 0 where
  next : UsbDevice → List ℕ → Round
  disconnected : Option (ℕ × ℕ) → Round
  waits : UsbDevice → List ℕ → UsbDevicePacket → Round
  stuck panicked : Round

abbrev pub after_route : UsbDevice → List ℕ → UsbDevicePacket → Routed → Round
after_route d rest packet (delivered r) = next (record d { router = r }) rest
after_route d rest packet no_connection = next d rest
after_route d rest packet waiting = waits d rest packet
after_route d rest packet blocked = stuck

-- `packet.tcp_hdr.as_ref()` with `t.rst`.
abbrev pub is_rst : Option TcpHeader → Bool
is_rst none = false
is_rst (some t) = t.rst

-- A reset is dropped; every other packet, an error too, goes to the router.
abbrev pub handle : UsbDevice → List ℕ → UsbDevicePacket → Bool → Round
handle d rest packet true = next d rest
handle d rest packet false = after_route d rest packet (route packet d.router)

abbrev pub told : UsbDevice → Option (ℕ × ℕ)
told d = if d.disconnected_tx then some (d.id, opaque_id d.info) else none

abbrev pub after_read : UsbDevice → Reply UsbDevicePacket → Round
after_read d (ok packet rest) = handle (increment_recv_seq d) rest packet (is_rst packet.tcp_hdr)
after_read d (err (io _) rest) = disconnected (told d)
after_read d (err _ rest) = next d rest
after_read d panic = panicked
after_read d undefined = panicked

-- One round on the bytes that the endpoint has still to give, before it fails with `end`.
unfoldable pub reader_round : Extern → IoErrorKind → UsbDevice → List ℕ → Round
unfolding increment_recv_seq
reader_round x end d s = after_read d (Packet.from_reader x end s)

abbrev pub after_round : Round → (UsbDevice → List ℕ → Round) → Round
after_round (next d s) continue = continue d s
after_round r continue = r

-- The loop: what its last round comes to, and `next` where the fuel has run out.
pub reader_loop : Extern → IoErrorKind → ℕ → UsbDevice → List ℕ → Round
reader_loop x end zero d s = next d s
reader_loop x end (suc n) d s =
    after_round (reader_round x end d s) λ d' s'. reader_loop x end n d' s'

-- ===== src/Handler/Connect/Window.antt =====
-- What the forwarding loop keeps of the device's window.
use rusbmux.Base.{
  ℕ, ◌≡◌, ◌≤◌, ◌<◌, ◌+◌, ◌-◌, ◌*◌, ◌^◌, ◌%◌, Option, List, ◌++◌, length, length-take, arith,
}
use rusbmux.Base.Words.{IsU16}
use rusbmux.Extern.{Extern}
use rusbmux.Error.{Result}
use rusbmux.Channel.{Channel}
use rusbmux.Router.{PacketRouter}
use rusbmux.DeviceMux.Payload
use rusbmux.DeviceMux.Builder.{build_bytes}
use rusbmux.DeviceMux.Packet.{UsbDevicePacket}
use rusbmux.Conn
use rusbmux.Conn.{
  RecvState, Received, got, recv_failed, nothing_yet, ack_waits, recv, UsbDeviceConn,
  calc_sendable_bytes, send_bytes, send_packet, max_packet_payload_size,
}
use rusbmux.Handler.Connect.{Forward, from_client, goes_on, select}
use rusbmux.Handler.Connect.Forwarding.{new_bytes, sent_of, client_round}

-- The connection keeps to the window of the device, whose size is a u16 in units of 256 bytes.
pub record InWindow (c : UsbDeviceConn) : Type 0 where
  pub fits : IsU16 c.device_last_window_size
  pub received : c.device_last_received_bytes ≤ c.sent_bytes
  pub within : c.sent_bytes - c.device_last_received_bytes ≤ c.device_last_window_size * 256
  pub current :
      c.sendable_bytes
      ≡ calc_sendable_bytes c.sent_bytes c.device_last_window_size c.device_last_received_bytes

abbrev Counted : UsbDeviceConn → ℕ → UsbDeviceConn → Type 0
Counted c n d =
    (d.sent_bytes ≡ (c.sent_bytes + n % 2 ^ 32) % 2 ^ 32)
    × (d.device_last_window_size ≡ c.device_last_window_size)
    × (d.device_last_received_bytes ≡ c.device_last_received_bytes)
    × (d.sendable_bytes
        ≡ calc_sendable_bytes d.sent_bytes c.device_last_window_size c.device_last_received_bytes)

packet-Counted :
    (x : Extern) (c d : UsbDeviceConn) (tx tx' : Channel UsbDevicePacket) (packet : UsbDevicePacket)
    → send_packet x c tx packet ≡ Conn.done (d, tx')
    → Counted c (Payload.len packet.payload) d
unfolding send_packet
packet-Counted x c d tx tx' packet h = ground arith

sent-Counted :
    (x : Extern) (c d : UsbDeviceConn) (tx tx' : Channel UsbDevicePacket) (p : List ℕ)
    → send_bytes x c tx p ≡ Conn.done (d, tx')
    → Counted c (length p) d
unfolding send_bytes build_bytes
sent-Counted x c d tx tx' p h = packet-Counted x c d tx tx' _ h

sent-InWindow :
    (x : Extern) (c d : UsbDeviceConn) (tx tx' : Channel UsbDevicePacket) (p : List ℕ)
    → InWindow c
    → c.sent_bytes + length p < 2 ^ 32
    → length p ≤ c.sendable_bytes
    → send_bytes x c tx p ≡ Conn.done (d, tx')
    → InWindow d
unfolding calc_sendable_bytes
sent-InWindow x c d tx tx' p v fits small h =
    let (sent, window, received, sendable) = sent-Counted x c d tx tx' p h in
    let total : d.sent_bytes ≡ c.sent_bytes + length p = omega arith in
    let current = v.current in
    record {
      fits = rw window v.fits;
      received = omega (arith, v.received);
      within = ground (arith, v.within, v.received, v.fits, v.current);
      current = rw (window, received) sendable;
    }

-- The forwarding loop never sends the device more than its window holds, while the count of the sent bytes does not
-- wrap: a round on the client's bytes keeps the connection within the window.
pub client_round-InWindow :
    (x : Extern) (router : Option PacketRouter) (read : Result (List ℕ)) (s t : Forward)
    → InWindow s.conn
    → s.conn.sent_bytes + s.conn.sendable_bytes < 2 ^ 32
    → select x router (from_client read) s ≡ goes_on t
    → InWindow t.conn
client_round-InWindow x router read s t v fits h =
    let (sent, kept, some_room) = client_round x router read s t h in
    let small : length (sent_of (from_client read) s) ≤ s.conn.sendable_bytes =
      omega (arith, length-take s.conn.sendable_bytes (s.read_buf ++ new_bytes read s.read_buf)) in
    sent-InWindow x s.conn t.conn s.tx t.tx (sent_of (from_client read) s) v (omega arith) small
      sent

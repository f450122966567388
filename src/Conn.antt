-- ===== src/Conn.antt =====
-- conn/usb.rs: `UsbDeviceConn`, one connection to a port of a device. Its two channel ends are
-- arguments: `tx` carries packets to the device's writer, `rx` those that the router hands over.
pub mod FlowControl
pub mod Close
pub mod Handshake
pub mod Network
pub mod Either
pub mod Sequence
use rusbmux.Base.{
  ℕ, ◌+◌, ◌-◌, ◌*◌, ◌%◌, ◌^◌, ◌≡◌, min, Bool, true, false, Option, none, some, List, [], ◌∷◌, ltb,
  if◌then◌else◌,
}
use mathlib.Core.Option
use rusbmux.Base.Words.{as_u32}
use rusbmux.Extern.{Extern, TcpHeader}
use rusbmux.Error.{RusbmuxError, Result, channel, unexpected_packet}
use rusbmux.Channel.{Channel, Sent, sent, refused, full, send}
use rusbmux.Router.{PacketRouter, unregister}
use rusbmux.DeviceMux.Payload
use rusbmux.DeviceMux.Packet.{UsbDevicePacket, headers_len_v2}
use rusbmux.DeviceMux.Builder.{
  TcpFlags, ack, syn, rst, UsbDevicePacketBuilder, Empty, builder, payload_bytes, payload_plist,
  header_tcp, tcp_header, build_ack, build_bytes, build_plist,
}

pub record UsbDeviceConn : Type 0 where
  pub device_id : ℕ
  pub sent_bytes : ℕ
  pub received_bytes : ℕ
  pub source_port : ℕ
  pub destination_port : ℕ
  pub sendable_bytes : ℕ
  pub device_last_window_size : ℕ
  pub device_last_received_bytes : ℕ
  pub dropped : Bool

-- A placeholder: the writer loop fills the sequence numbers in.
abbrev pub auto_seq : ℕ
auto_seq = 0

-- usb_backend/mod.rs: `MAX_PACKET_SIZE` and `MAX_PACKET_PAYLOAD_SIZE`.
abbrev pub max_packet_size : ℕ
max_packet_size = 48 * 1024

abbrev pub max_packet_payload_size : ℕ
max_packet_payload_size = max_packet_size - headers_len_v2

-- The window is a u16 in units of 256 bytes; the subtraction of the byte counts saturates.
unfoldable pub calc_sendable_bytes : ℕ → ℕ → ℕ → ℕ
calc_sendable_bytes sent_bytes device_window_size device_received_bytes =
    let window = as_u32 (device_window_size * 2 ^ 8) in
    let unacked_bytes = sent_bytes - device_received_bytes in
    if ltb unacked_bytes window then min (window - unacked_bytes) max_packet_payload_size else 0

unfoldable pub update_sendable_bytes : UsbDeviceConn → UsbDeviceConn
update_sendable_bytes c = record c {
  sendable_bytes =
      calc_sendable_bytes c.sent_bytes c.device_last_window_size c.device_last_received_bytes;
}

-- The `fetch_add` of an `AtomicU32` wraps.
abbrev pub add_sent_bytes : UsbDeviceConn → ℕ → UsbDeviceConn
add_sent_bytes c value = record c { sent_bytes = as_u32 (c.sent_bytes + value) }

unfoldable pub new_from : ℕ → ℕ → ℕ → ℕ → ℕ → ℕ → ℕ → UsbDeviceConn
new_from device_id destination_port source_port sent_bytes received_bytes window device_received =
    record {
      device_id = device_id;
      sent_bytes = sent_bytes;
      received_bytes = received_bytes;
      source_port = source_port;
      destination_port = destination_port;
      sendable_bytes = calc_sendable_bytes sent_bytes window device_received;
      device_last_window_size = window;
      device_last_received_bytes = device_received;
      dropped = false;
    }

-- What a task sees of an operation that sends: it is done, it has failed, or it waits for room.
pub data Progress (A : Type 0) : Type 0 where
  done : A → Progress A
  failed : RusbmuxError → Progress A
  pending : Progress A

-- What a receive comes to: a packet, an error, no packet yet, or one that waits for room to be
-- acknowledged.
pub data Received : Type 0 where
  got : UsbDevicePacket → Received
  recv_failed : RusbmuxError → Received
  nothing_yet ack_waits : Received

-- The connection and its channels after a receive, whatever it came to.
pub record RecvState : Type 0 where
  pub conn : UsbDeviceConn
  pub rx : Channel UsbDevicePacket
  pub tx : Channel UsbDevicePacket
  pub outcome : Received

module _ (x : Extern) where
  -- A packet with no payload, under the connection's ports and byte counts.
  abbrev pub control_packet : ℕ → ℕ → ℕ → ℕ → TcpFlags → UsbDevicePacket
  control_packet source destination sequence acknowledgment flags = build_ack (
      tcp_header x (header_tcp builder auto_seq auto_seq) source destination sequence acknowledgment
        flags)

  abbrev pub own_packet : UsbDeviceConn → TcpFlags → UsbDevicePacket
  own_packet c = control_packet c.source_port c.destination_port c.sent_bytes c.received_bytes

  abbrev pub Tx : Type 0
  Tx = Channel UsbDevicePacket

  abbrev pub after_send : {A : Type 0} → Sent UsbDevicePacket → (Tx → Progress A) → Progress A
  after_send (sent tx) k = k tx
  after_send refused k = failed channel
  after_send full k = pending

  unfoldable pub send_packet : UsbDeviceConn → Tx → UsbDevicePacket → Progress (UsbDeviceConn × Tx)
  unfolding update_sendable_bytes
  send_packet c tx packet =
      let payload_len = as_u32 (Payload.len packet.payload) in
      after_send (send packet tx)
        λ tx'. done (update_sendable_bytes (add_sent_bytes c payload_len), tx')

  unfoldable pub send_bytes : UsbDeviceConn → Tx → List ℕ → Progress (UsbDeviceConn × Tx)
  unfolding send_packet
  send_bytes c tx value = send_packet c tx (
      build_bytes (
        tcp_header x (header_tcp (payload_bytes builder value) auto_seq auto_seq) c.source_port
          c.destination_port c.sent_bytes c.received_bytes ack))

  unfoldable pub send_plist :
      {Value : Type 0}
      → (Value → List ℕ)
      → UsbDeviceConn
      → Tx
      → Value
      → Progress (UsbDeviceConn × Tx)
  unfolding send_packet
  send_plist to_xml c tx value = send_packet c tx (
      build_plist to_xml (
        tcp_header x (header_tcp (payload_plist builder value) auto_seq auto_seq) c.source_port
          c.destination_port c.sent_bytes c.received_bytes ack))

  unfoldable pub send_ack : UsbDeviceConn → Tx → Progress Tx
  send_ack c tx = after_send (send (own_packet c ack) tx) done

  unfoldable pub send_rst : UsbDeviceConn → Tx → Progress Tx
  send_rst c tx = after_send (send (own_packet c rst) tx) done

  -- The counters are taken from the TCP header, or from the payload where there is none.
  abbrev pub note_received : UsbDeviceConn → UsbDevicePacket → Option TcpHeader → UsbDeviceConn
  note_received c response none = record c {
    received_bytes = as_u32 (Payload.len response.payload);
  }
  note_received c response (some h) = record c {
    received_bytes = h.sequence_number;
    device_last_received_bytes = h.acknowledgment_number;
    device_last_window_size = h.window_size;
  }

  -- Each packet taken is acknowledged, with the counts as they are after it. The packet has left the
  -- channel and the counts are set before the acknowledgment is sent.
  abbrev pub acknowledged :
      UsbDeviceConn
      → Channel UsbDevicePacket
      → Tx
      → UsbDevicePacket
      → Sent UsbDevicePacket
      → RecvState
  acknowledged c rx tx response (sent tx') = record {
    conn = update_sendable_bytes c;
    rx = rx;
    tx = tx';
    outcome = got response;
  }
  acknowledged c rx tx response refused = record {
    conn = c;
    rx = rx;
    tx = tx;
    outcome = recv_failed channel;
  }
  acknowledged c rx tx response full = record { conn = c; rx = rx; tx = tx; outcome = ack_waits }

  unfoldable pub recv : UsbDeviceConn → Channel UsbDevicePacket → Tx → RecvState
  unfolding update_sendable_bytes
  recv c rx tx = elim rx.queue [
    | [] ↦ record {
      conn = c;
      rx = rx;
      tx = tx;
      outcome = if rx.disconnected then recv_failed channel else nothing_yet;
    }
    | response ∷ rest ↦
        let c' = note_received c response response.tcp_hdr in
        acknowledged c' (record rx { queue = rest }) tx response (send (own_packet c' ack) tx)
  ]

  -- The device's answer to a SYN sets the counts; the acknowledgment is sent with them.
  abbrev pub answered : ℕ → ℕ → ℕ → Tx → Option TcpHeader → Progress (UsbDeviceConn × Tx)
  answered device_id source destination tx none = failed unexpected_packet
  answered device_id source destination tx (some h) =
      after_send
        (send (control_packet source destination h.acknowledgment_number h.sequence_number ack) tx)
        λ tx'. done (
          new_from device_id destination source h.acknowledgment_number h.sequence_number
              h.window_size h.acknowledgment_number,
          tx',
        )

  -- `UsbDeviceConn::new` in two parts, before and after it waits for the answer.
  unfoldable pub new_syn : ℕ → ℕ → Tx → Progress Tx
  new_syn source destination tx =
      after_send (send (control_packet source destination 0 0 syn) tx) done

  unfoldable pub new_answer :
      ℕ
      → ℕ
      → ℕ
      → Channel UsbDevicePacket
      → Tx
      → Progress (UsbDeviceConn × Channel UsbDevicePacket × Tx)
  unfolding new_from
  new_answer device_id source destination rx tx = elim rx.queue [
    | [] ↦ if rx.disconnected then failed channel else pending
    | response ∷ rest ↦ elim (answered device_id source destination tx response.tcp_hdr) [
      | done (c, tx') ↦ done (c, record rx { queue = rest }, tx')
      | failed e ↦ failed e
      | pending ↦ pending
    ]
  ]

  -- `close`: the connection is marked, an RST is sent, and the router, where it is alive, forgets the
  -- port. A failed send returns before that.
  abbrev pub closed :
      UsbDeviceConn
      → Option PacketRouter
      → Sent UsbDevicePacket
      → Progress (UsbDeviceConn × Option PacketRouter × Tx)
  closed c router (sent tx') = done (c, Option.map (unregister c.source_port) router, tx')
  closed c router refused = failed channel
  closed c router full = pending

  unfoldable pub close :
      UsbDeviceConn → Option PacketRouter → Tx → Progress (UsbDeviceConn × Option PacketRouter × Tx)
  close c router tx =
      let c' = record c { dropped = true } in closed c' router (send (own_packet c' rst) tx)

  -- `close_blocking` uses `try_send`, which fails where `send` waits. It is what `drop` calls, which
  -- ignores the error: the connection, the router and the channel are as they are left.
  abbrev pub closed_blocking :
      UsbDeviceConn
      → Option PacketRouter
      → Tx
      → Sent UsbDevicePacket
      → UsbDeviceConn × Option PacketRouter × Tx × Bool
  closed_blocking c router tx (sent tx') =
      (c, Option.map (unregister c.source_port) router, tx', true)
  closed_blocking c router tx refused = (c, router, tx, false)
  closed_blocking c router tx full = (c, router, tx, false)

  unfoldable pub close_blocking :
      UsbDeviceConn → Option PacketRouter → Tx → UsbDeviceConn × Option PacketRouter × Tx × Bool
  close_blocking c router tx =
      let c' = record c { dropped = true } in
      closed_blocking c' router tx (send (own_packet c' rst) tx)

  -- `Drop`: a connection that is not closed yet is closed.
  unfoldable pub drop :
      UsbDeviceConn → Option PacketRouter → Tx → UsbDeviceConn × Option PacketRouter × Tx
  unfolding close_blocking
  drop c router tx =
      if c.dropped
      then (c, router, tx)
      else (let (c', router', tx', _) = close_blocking c router tx in (c', router', tx'))

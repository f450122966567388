-- ===== src/Conn/FlowControl.antt =====
-- conn/usb.rs: how many bytes a connection may send.
use rusbmux.Base.{
  ℕ, ◌+◌, ◌-◌, ◌*◌, ◌≡◌, ◌≤◌, ◌<◌, ◌↔◌, List, [], ◌∷◌, ◌++◌, arith, length, min, false, some,
}
use rusbmux.Base.Words.{IsU16, as_u32}
use rusbmux.Extern.{Extern, TcpHeader}
use rusbmux.Channel.{Channel, capacity}
use rusbmux.DeviceMux.Payload
use rusbmux.DeviceMux.Builder.{ack}
use rusbmux.DeviceMux.Packet.{UsbDevicePacket}
use rusbmux.Conn.{
  calc_sendable_bytes, max_packet_payload_size, UsbDeviceConn, send_packet, recv, done, got,
  ack_waits, control_packet,
}

-- Where the device's window holds what it has not acknowledged, what may be sent beside that stays
-- within the window and within one packet, and it is 0 exactly where the window is used up.
pub sendable_bounds :
    (sent window received : ℕ)
    → IsU16 window
    → received ≤ sent
    → sent - received ≤ window * 256
    → (calc_sendable_bytes sent window received ≤ max_packet_payload_size)
      × ((sent - received) + calc_sendable_bytes sent window received ≤ window * 256)
      × ((calc_sendable_bytes sent window received ≡ 0) ↔ (sent - received ≡ window * 256))
unfolding calc_sendable_bytes
sendable_bounds sent window received w r u =
    (ground arith, ground arith, (λ h. ground arith, λ h. ground arith))

-- A packet that is sent stands last in the channel, its payload is counted modulo 2 ^ 32, and what may
-- be sent is computed anew from the new count.
pub send_packet_done :
    (x : Extern) (c d : UsbDeviceConn) (tx tx' : Channel UsbDevicePacket) (packet : UsbDevicePacket)
    → send_packet x c tx packet ≡ done (d, tx')
    → (tx'.queue ≡ tx.queue ++ packet ∷ [])
      × (d.sent_bytes ≡ as_u32 (c.sent_bytes + as_u32 (Payload.len packet.payload)))
      × (d.sendable_bytes
          ≡ calc_sendable_bytes d.sent_bytes c.device_last_window_size c.device_last_received_bytes)
unfolding send_packet
send_packet_done x c d tx tx' packet e = ground arith

-- Where a packet with a TCP header waits and the channel to the device has room, `recv` returns it,
-- acknowledges it with the counts that it brings, and computes what may be sent from its window.
pub recv_got :
    (x : Extern) (c : UsbDeviceConn) (rx tx : Channel UsbDevicePacket) (response : UsbDevicePacket)
    (rest : List UsbDevicePacket) (h : TcpHeader)
    → rx.queue ≡ response ∷ rest
    → response.tcp_hdr ≡ some h
    → tx.disconnected ≡ false
    → length tx.queue < capacity
    → let s = recv x c rx tx in
      (s.outcome ≡ got response)
      × (s.rx.queue ≡ rest)
      × (s.tx.queue
          ≡ tx.queue
            ++ control_packet x c.source_port c.destination_port c.sent_bytes h.sequence_number ack
              ∷ [])
      × (s.conn.received_bytes ≡ h.sequence_number)
      × (s.conn.sendable_bytes
          ≡ calc_sendable_bytes c.sent_bytes h.window_size h.acknowledgment_number)
unfolding recv
recv_got x c rx tx response rest h q t d l = ground arith

-- Where the channel to the device is full, `recv` has taken the packet out of its own channel and has
-- not returned it: a task that drops the call there, as `select!` does, loses the packet.
pub recv_waits_holding :
    (x : Extern) (c : UsbDeviceConn) (rx tx : Channel UsbDevicePacket) (response : UsbDevicePacket)
    (rest : List UsbDevicePacket) (h : TcpHeader)
    → rx.queue ≡ response ∷ rest
    → response.tcp_hdr ≡ some h
    → tx.disconnected ≡ false
    → capacity ≤ length tx.queue
    → let s = recv x c rx tx in
      (s.outcome ≡ ack_waits)
      × (s.rx.queue ≡ rest)
      × (s.tx ≡ tx)
      × (s.conn.received_bytes ≡ h.sequence_number)
unfolding recv
recv_waits_holding x c rx tx response rest h q t d l = ground arith

-- The counters are u32 and wrap, and the subtraction saturates: where `sent` has wrapped below what
-- the device acknowledged, the connection may send a full window, up to one packet, whatever is
-- outstanding.
pub wrapped_ignores_unacked :
    (sent window received : ℕ)
    → IsU16 window
    → sent < received
    → calc_sendable_bytes sent window received ≡ min (window * 256) max_packet_payload_size
unfolding calc_sendable_bytes
wrapped_ignores_unacked sent window received w r = ground arith

-- ===== src/Conn/Handshake.antt =====
-- conn/usb.rs: the handshake that opens a connection.
use rusbmux.Base.{ℕ, ◌+◌, ◌≡◌, ◌<◌, false, some, List, [], ◌∷◌, ◌++◌, arith, length, length-append}
use rusbmux.Extern.{Extern, TcpHeader}
use rusbmux.Channel.{Channel, capacity}
use rusbmux.DeviceMux.Packet.{UsbDevicePacket}
use rusbmux.DeviceMux.Builder.{ack, syn}
use rusbmux.Conn.{done, new_syn, new_answer, new_from, calc_sendable_bytes, control_packet}

-- Where the channel to the device has room for both packets and the first packet for the port has a
-- TCP header, a connection is opened: its SYN and then its acknowledgment, under the numbers of the
-- answer, stand last in the channel, and the answer is taken. The count of sent bytes, and that of the bytes
-- that the device has received, is the answer's acknowledgment number, the count of received bytes its
-- sequence number, and what may be sent comes from its window.
pub handshake :
    (x : Extern) (device_id source destination : ℕ) (rx tx : Channel UsbDevicePacket)
    (response : UsbDevicePacket) (rest : List UsbDevicePacket) (h : TcpHeader)
    → rx.queue ≡ response ∷ rest
    → response.tcp_hdr ≡ some h
    → tx.disconnected ≡ false
    → length tx.queue + 1 < capacity
    → (middle : Channel UsbDevicePacket) × (new_syn x source destination tx ≡ done middle)
      × (new_answer x device_id source destination rx middle
          ≡ done (
            record {
              device_id = device_id;
              sent_bytes = h.acknowledgment_number;
              received_bytes = h.sequence_number;
              source_port = source;
              destination_port = destination;
              sendable_bytes =
                  calc_sendable_bytes h.acknowledgment_number h.window_size h.acknowledgment_number;
              device_last_window_size = h.window_size;
              device_last_received_bytes = h.acknowledgment_number;
              dropped = false;
            },
            record rx { queue = rest },
            record tx {
              queue =
                  (tx.queue ++ control_packet x source destination 0 0 syn ∷ [])
                  ++ control_packet x source destination h.acknowledgment_number h.sequence_number
                      ack
                    ∷ [];
            },
          ))
unfolding new_syn new_answer new_from
handshake x device_id source destination rx tx response rest h q t d l = (
  record tx { queue = tx.queue ++ control_packet x source destination 0 0 syn ∷ [] },
  ground arith,
  ground (arith, length-append tx.queue (control_packet x source destination 0 0 syn ∷ [])),
)

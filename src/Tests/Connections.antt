-- ===== src/Tests/Connections.antt =====
-- The theorems about connections, at one connection to a device.
use rusbmux.Base.{ℕ, ◌+◌, ◌*◌, ◌≡◌, ◌≤◌, ◌↔◌, refl, true, false, some, List, [], ◌∷◌, ◌++◌, arith}
use rusbmux.Extern.{TcpHeader}
use rusbmux.Channel.{Channel, bounded}
use rusbmux.DeviceMux.Header.{v2}
use rusbmux.DeviceMux.Payload
use rusbmux.DeviceMux.Packet.{UsbDevicePacket}
use rusbmux.DeviceMux.Builder.{
  ack, syn, build_bytes, tcp_header, header_tcp, payload_bytes, builder,
}
use rusbmux.Conn.Handshake.{handshake}
use rusbmux.Conn.{
  new_syn, new_answer, UsbDeviceConn, calc_sendable_bytes, max_packet_payload_size, send_bytes,
  recv, RecvState, auto_seq, done, control_packet,
}
use rusbmux.Conn.Sequence.{Run, here, next, sends, receives, put_behind, Contiguous, Run-Contiguous}
use rusbmux.Conn.FlowControl.{sendable_bounds}
use rusbmux.Tests.Codec.{plain}

sendable_bounds_example :
    (calc_sendable_bytes 1000 512 400 ≤ max_packet_payload_size)
    × (600 + calc_sendable_bytes 1000 512 400 ≤ 512 * 256)
    × ((calc_sendable_bytes 1000 512 400 ≡ 0) ↔ (600 ≡ 512 * 256))
sendable_bounds_example = sendable_bounds 1000 512 400 (omega arith) (omega arith) (omega arith)

abbrev header : TcpHeader
header = record {
  source_port = 62078;
  destination_port = 5;
  sequence_number = 10;
  acknowledgment_number = 20;
  window_size = 512;
  ack = true;
  syn = false;
  rst = false;
  others = [];
}

abbrev packet : UsbDevicePacket
packet = record {
  header = v2 (record { protocol = 6; length = 38; magic = 7; send_seq = 0; recv_seq = 0 });
  tcp_hdr = some header;
  payload = Payload.bytes (8 ∷ 9 ∷ []);
}

abbrev conn : UsbDeviceConn
conn = record {
  device_id = 3;
  sent_bytes = 20;
  received_bytes = 4;
  source_port = 5;
  destination_port = 62078;
  sendable_bytes = 100;
  device_last_window_size = 512;
  device_last_received_bytes = 20;
  dropped = false;
}

abbrev after_sending : UsbDeviceConn
after_sending = record conn { sent_bytes = 22; sendable_bytes = calc_sendable_bytes 22 512 20 }

abbrev one : Channel UsbDevicePacket
one = record { queue = packet ∷ []; disconnected = false }

handshake_example :
    (middle : Channel UsbDevicePacket) × (new_syn plain 5 62078 bounded ≡ done middle)
    × (new_answer plain 3 5 62078 one middle
        ≡ done (
          record {
            device_id = 3;
            sent_bytes = 20;
            received_bytes = 10;
            source_port = 5;
            destination_port = 62078;
            sendable_bytes = calc_sendable_bytes 20 512 20;
            device_last_window_size = 512;
            device_last_received_bytes = 20;
            dropped = false;
          },
          record one { queue = [] },
          record {
            queue =
                ([] ++ control_packet plain 5 62078 0 0 syn ∷ [])
                ++ control_packet plain 5 62078 20 10 ack ∷ [];
            disconnected = false;
          },
        ))
handshake_example =
    handshake plain 3 5 62078 one bounded packet [] header refl refl refl (omega arith)

abbrev two : List ℕ
two = 8 ∷ 9 ∷ []

abbrev two_sent : Channel UsbDevicePacket
two_sent = record {
  queue =
      build_bytes (
        tcp_header plain (header_tcp (payload_bytes builder two) auto_seq auto_seq) 5 62078 20 4
          ack)
      ∷ [];
  disconnected = false;
}

two_counted : send_bytes plain conn bounded two ≡ done (after_sending, two_sent)
unfolding send_bytes build_bytes
two_counted = refl

-- Two bytes are sent and a packet is received.
abbrev conn_received : RecvState
conn_received = recv plain after_sending one bounded

abbrev conn_run :
    Run plain conn
      (([] ++ put_behind bounded two_sent) ++ put_behind bounded conn_received.tx)
      conn_received.conn
conn_run =
    next ([] ++ put_behind bounded two_sent) (put_behind bounded conn_received.tx) after_sending
      conn_received.conn
      (next [] (put_behind bounded two_sent) conn after_sending here
        (sends two bounded two_sent after_sending two_counted))
      (receives one bounded)

Run-Contiguous_example :
    Contiguous 20
      (([] ++ put_behind bounded two_sent) ++ put_behind bounded conn_received.tx)
      conn_received.conn.sent_bytes
Run-Contiguous_example =
    Run-Contiguous plain conn conn_received.conn
      (([] ++ put_behind bounded two_sent) ++ put_behind bounded conn_received.tx) (omega arith)
      conn_run

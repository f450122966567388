-- ===== src/Tests/Devices.antt =====
-- The theorems about a device and its router, at small states.
use rusbmux.Base.{ℕ, ◌≡◌, ◌≢◌, refl, true, false, none, some, List, [], ◌∷◌, ◌++◌, arith, inl, inr}
use rusbmux.Base.Parser.{ok, unexpected_eof}
use rusbmux.Extern.{TcpHeader}
use rusbmux.Channel.{Channel, bounded}
use rusbmux.DeviceMux.Header.{v1, v2}
use rusbmux.DeviceMux.Payload
use rusbmux.DeviceMux.Payload.{UsbDevicePacketVersion}
use rusbmux.DeviceMux.Packet.{UsbDevicePacket}
use rusbmux.DeviceMux.Packet.Parts.{IsPacket}
use rusbmux.Router.{PacketRouter, new, register, route, delivered}
use rusbmux.Router.Laws.{
  pending, Reach, here, next, registers, IsRouter, Reach-IsRouter, route_delivers,
}
use rusbmux.Backend.{AnyDeviceInfo, rusb, apple_vid}
use rusbmux.Device.{UsbDevice, opened}
use rusbmux.Device.Writer.{Action, wrote, flushed, Endpoint, writer_loop}
use rusbmux.Device.Writer.Numbering.{transfers_of, wire, writer_loop-wire}
use rusbmux.Device.Reader.{reader_loop}
use rusbmux.Device.Reader.Rounds.{IsLast, reader_loop_ends}
use rusbmux.Device.Opening.{new_device}
use rusbmux.Device.Opening.Exchange.{
  version_bytes, setup_bytes, stream, new_device-opened, new_device_ends,
}
use rusbmux.Base.{◌==◌, if◌then◌else◌}
use rusbmux.Base.Map.{get}
use rusbmux.DeviceMux.Builder.{rst}
use rusbmux.Conn.{control_packet, done, new_from, close}
use rusbmux.Device.Table.{connect_from, cleanup_conn}
use rusbmux.Device.Table.Runs
use rusbmux.Device.Table.Runs.{Reached, start, connects_from, Reached-cleanup_conn}
use rusbmux.Tests.Codec.{plain, plain-ExternLaws}

abbrev header : TcpHeader
header = record {
  source_port = 62078;
  destination_port = 5;
  sequence_number = 10;
  acknowledgment_number = 20;
  window_size = 512;
  ack = true;
  syn = false;
  rst = false;
  others = [];
}

abbrev tcp_packet : UsbDevicePacket
tcp_packet = record {
  header = v2 (record { protocol = 6; length = 38; magic = 7; send_seq = 0; recv_seq = 0 });
  tcp_hdr = some header;
  payload = Payload.bytes (8 ∷ 9 ∷ []);
}

abbrev plain_packet : UsbDevicePacket
plain_packet = record {
  header = v2 (record { protocol = 2; length = 17; magic = 7; send_seq = 0; recv_seq = 0 });
  tcp_hdr = none;
  payload = Payload.bytes (7 ∷ []);
}

abbrev shown_version : UsbDevicePacketVersion
shown_version = record { major = 2; minor = 0; padding = 0 }

abbrev hello : UsbDevicePacket
hello = record {
  header = v1 (record { protocol = 0; length = 20 });
  tcp_hdr = none;
  payload = Payload.version shown_version;
}

plain_packet-IsPacket : IsPacket plain plain_packet
plain_packet-IsPacket = record {
  header_fits = (inr (inl refl), omega arith, omega arith, omega arith, omega arith);
  agrees = (refl, refl);
}

hello-IsPacket : IsPacket plain hello
hello-IsPacket = record {
  header_fits = (refl, omega arith);
  agrees = (refl, (omega arith, omega arith, omega arith));
}

abbrev phone : AnyDeviceInfo
phone = rusb (record {
  vendor_id = apple_vid;
  product_id = 4776;
  serial = some (b'a' ∷ b'b' ∷ []);
  speed = none;
  bus = 1;
  address = 7;
  hash_id = 0;
})

abbrev device : UsbDevice
device = opened 3 phone shown_version

abbrev endpoint : Endpoint
endpoint = record { log = []; outcomes = [] }

writer_loop-wire_example :
    (d' : UsbDevice) × (e' : Endpoint) × (log : List Action) × (writer_loop plain
        (tcp_packet ∷ plain_packet ∷ [])
        device
        endpoint
      ≡ some (d', e'))
    × (e'.log ≡ endpoint.log ++ log)
    × (transfers_of [] log ≡ (wire plain 1 0 (tcp_packet ∷ plain_packet ∷ []), []))
writer_loop-wire_example =
    writer_loop-wire plain plain-ExternLaws (tcp_packet ∷ plain_packet ∷ []) device endpoint
      (refl, (tt, tt)) refl

-- A device that sends nothing before it has been written to.
abbrev answers : List Action → List ℕ
answers [] = []
answers (a ∷ log) = stream plain (plain_packet ∷ hello ∷ []) (4 ∷ [])

new_device-opened_example :
    new_device plain unexpected_eof 3 phone 2 answers endpoint
    ≡ some (
      record endpoint {
        log = endpoint.log ++ wrote version_bytes ∷ flushed ∷ wrote setup_bytes ∷ flushed ∷ [];
      },
      ok (opened 3 phone shown_version) (4 ∷ []),
    )
new_device-opened_example =
    new_device-opened plain plain-ExternLaws unexpected_eof 3 phone (plain_packet ∷ []) hello
      shown_version (4 ∷ []) answers endpoint ((plain_packet-IsPacket, tt, refl), tt) hello-IsPacket
      tt refl refl refl

abbrev some_bytes : List ℕ
some_bytes = 0 ∷ 0 ∷ 0 ∷ 9 ∷ 0 ∷ 0 ∷ 0 ∷ 1 ∷ 1 ∷ []

new_device_ends_example :
    new_device plain unexpected_eof 3 phone 2 (λ log. some_bytes) endpoint ≢ none
new_device_ends_example =
    new_device_ends plain unexpected_eof 3 phone 2 (λ log. some_bytes) endpoint (omega arith)

reader_loop_ends_example : IsLast (reader_loop plain unexpected_eof 2 device some_bytes)
reader_loop_ends_example = reader_loop_ends plain unexpected_eof 2 device some_bytes (omega arith)

abbrev router : PacketRouter
router = register 6 (register 5 new)

router-Reach : Reach new router
router-Reach = next (next here (registers 5 (omega arith) refl)) (registers 6 (omega arith) refl)

router-IsRouter : IsRouter router
router-IsRouter = Reach-IsRouter router-Reach

abbrev channel : Channel UsbDevicePacket
channel = record { queue = plain_packet ∷ []; disconnected = false }

abbrev before : PacketRouter
before = record { conns = (5, channel) ∷ (6, bounded) ∷ [] }

abbrev after : PacketRouter
after = record {
  conns = (5, record channel { queue = plain_packet ∷ tcp_packet ∷ [] }) ∷ (6, bounded) ∷ [];
}

before_routes : route tcp_packet before ≡ delivered after
unfolding route
before_routes = refl

route_delivers_example : pending 5 after ≡ pending 5 before ++ tcp_packet ∷ []
route_delivers_example = route_delivers tcp_packet before after 5 before_routes

-- A device with one connection, from port 5.
abbrev with_conn : UsbDevice
with_conn = (connect_from plain 62078 5 20 4 512 20 device).0

abbrev cleaned : UsbDevice
cleaned = record device {
  w_tx = record bounded { queue = control_packet plain 5 62078 20 4 rst ∷ [] };
  router = record { conns = [] };
}

cleans : cleanup_conn plain 5 with_conn ≡ done cleaned
unfolding cleanup_conn connect_from new_from close
cleans = refl

device-Reached : Reached plain with_conn
device-Reached = Runs.next device with_conn (start device refl) (connects_from 62078 5 20 4 512 20)

Reached-cleanup_conn_example :
    (get 5 cleaned.conns ≡ (if 5 == 5 then none else get 5 with_conn.conns))
    × (get 5 cleaned.router.conns ≡ (if 5 == 5 then none else get 5 with_conn.router.conns))
Reached-cleanup_conn_example =
    Reached-cleanup_conn plain with_conn cleaned 5 5 device-Reached cleans

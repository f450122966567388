-- ===== src/DeviceMux/Builder.antt =====
-- parser/device_mux/builder.rs: packets built step by step. The three type parameters say which
-- parts are there, so that only a complete packet has a `build`.
pub mod Built
use Prim.Native.Nat.{bit_and}
use rusbmux.Base.{ℕ, ◌+◌, ◌-◌, Bool, false, none, some, List, [], ◌∷◌, ◌++◌, length, ◌==◌}
use rusbmux.Base.Words.{be32, as_u32}
use rusbmux.Extern.{Extern, TcpHeader, tcp_min_len}
use rusbmux.DeviceMux.Protocol
use rusbmux.DeviceMux.Header.{v1, v2, v1_size, v2_size, new_v1, new_v2}
use rusbmux.DeviceMux.Payload.{UsbDevicePacketVersion, bytes, version, version_size}
use rusbmux.DeviceMux.Packet.{UsbDevicePacket}

-- A set of flags is a u8.
abbrev pub TcpFlags : Type 0
TcpFlags = ℕ

abbrev pub ack : TcpFlags
ack = 1

abbrev pub syn : TcpFlags
syn = 2

abbrev pub rst : TcpFlags
rst = 4

abbrev pub contains : TcpFlags → TcpFlags → Bool
contains flags other = bit_and flags other == other

-- `UsbDeviceConn::WINDOW_SIZE`, `(128 * 1024) >> 8`.
abbrev pub window_size : ℕ
window_size = 512

pub data Empty : Type 0 where
  empty : Empty

pub record UsbDevicePacketBuilder (P H T : Type 0) : Type 0 where
  pub payload : P
  pub header : H
  pub tcp_hdr : T

abbrev pub Seqs : Type 0
Seqs = ℕ × ℕ

abbrev pub builder : UsbDevicePacketBuilder Empty Empty Empty
builder = record { payload = empty; header = empty; tcp_hdr = empty }

module _ {H T : Type 0} (b : UsbDevicePacketBuilder Empty H T) where
  abbrev pub payload_version : ℕ → ℕ → UsbDevicePacketBuilder UsbDevicePacketVersion H T
  payload_version major minor = record {
    payload = record { major = major; minor = minor; padding = 0 };
    header = b.header;
    tcp_hdr = b.tcp_hdr;
  }

  abbrev pub payload_plist : {Value : Type 0} → Value → UsbDevicePacketBuilder Value H T
  payload_plist value = record { payload = value; header = b.header; tcp_hdr = b.tcp_hdr }

  abbrev pub payload_bytes : List ℕ → UsbDevicePacketBuilder (List ℕ) H T
  payload_bytes value = record { payload = value; header = b.header; tcp_hdr = b.tcp_hdr }

module _ {P T : Type 0} (b : UsbDevicePacketBuilder P Empty T) where
  abbrev pub header_tcp : ℕ → ℕ → UsbDevicePacketBuilder P Seqs T
  header_tcp send recv = record { payload = b.payload; header = (send, recv); tcp_hdr = b.tcp_hdr }

  abbrev pub header_version : UsbDevicePacketBuilder P Empty T
  header_version = record { payload = b.payload; header = empty; tcp_hdr = b.tcp_hdr }

  -- The sequence numbers of a setup packet are 0 and `u16::MAX`.
  abbrev pub header_setup : UsbDevicePacketBuilder P Seqs T
  header_setup = record { payload = b.payload; header = (0, 65535); tcp_hdr = b.tcp_hdr }

module _ (x : Extern) where
  -- `TcpHeader::new` with the flags and the acknowledgment number that are set after it.
  abbrev pub new_tcp_header : ℕ → ℕ → ℕ → ℕ → TcpFlags → TcpHeader
  new_tcp_header source destination sequence acknowledgment flags = record {
    source_port = source;
    destination_port = destination;
    sequence_number = sequence;
    acknowledgment_number = acknowledgment;
    window_size = window_size;
    ack = contains flags ack;
    syn = contains flags syn;
    rst = contains flags rst;
    others = x.default_others;
  }

  abbrev pub tcp_header :
      {P H : Type 0}
      → UsbDevicePacketBuilder P H Empty
      → ℕ
      → ℕ
      → ℕ
      → ℕ
      → TcpFlags
      → UsbDevicePacketBuilder P H TcpHeader
  tcp_header b source destination sequence acknowledgment flags = record {
    payload = b.payload;
    header = b.header;
    tcp_hdr = new_tcp_header source destination sequence acknowledgment flags;
  }

-- A TCP packet around the bytes of its payload.
tcp_packet : List ℕ → Seqs → TcpHeader → UsbDevicePacket
tcp_packet payload (send, recv) hdr = record {
  header = v2 (new_v2 Protocol.tcp (v2_size + tcp_min_len + length payload) send recv);
  tcp_hdr = some hdr;
  payload = bytes payload;
}

-- An acknowledgment: no payload.
unfoldable pub build_ack : UsbDevicePacketBuilder Empty Seqs TcpHeader → UsbDevicePacket
build_ack b =
    let (send, recv) = b.header in
    record {
      header = v2 (new_v2 Protocol.tcp (v2_size + tcp_min_len) send recv);
      tcp_hdr = some b.tcp_hdr;
      payload = bytes [];
    }

-- The length of the XML and its line break stands in front, as a big-endian u32.
abbrev pub plist_payload : {Value : Type 0} → (Value → List ℕ) → Value → List ℕ
plist_payload to_writer_xml value =
    let xml = to_writer_xml value ++ b'\n' ∷ [] in be32 (as_u32 (length (be32 0 xml) - 4)) xml

unfoldable pub build_plist :
    {Value : Type 0}
    → (Value → List ℕ)
    → UsbDevicePacketBuilder Value Seqs TcpHeader
    → UsbDevicePacket
unfolding tcp_packet
build_plist to_writer_xml b = tcp_packet (plist_payload to_writer_xml b.payload) b.header b.tcp_hdr

unfoldable pub build_bytes : UsbDevicePacketBuilder (List ℕ) Seqs TcpHeader → UsbDevicePacket
unfolding tcp_packet
build_bytes b = tcp_packet b.payload b.header b.tcp_hdr

unfoldable pub build_version :
    UsbDevicePacketBuilder UsbDevicePacketVersion Empty Empty → UsbDevicePacket
build_version b = record {
  header = v1 (new_v1 Protocol.version (as_u32 (v1_size + version_size)));
  tcp_hdr = none;
  payload = version b.payload;
}

unfoldable pub build_setup : UsbDevicePacketBuilder (List ℕ) Seqs Empty → UsbDevicePacket
build_setup b =
    let (send, recv) = b.header in
    record {
      header = v2 (new_v2 Protocol.setup (v2_size + length b.payload) send recv);
      tcp_hdr = none;
      payload = bytes b.payload;
    }

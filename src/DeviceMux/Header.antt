-- ===== src/DeviceMux/Header.antt =====
-- parser/device_mux/mod.rs: the two packet headers, and `UsbDevicePacketHeader` over them. A header
-- holds the raw numbers of its big-endian fields.
pub mod RoundTrip
pub mod Reading
use rusbmux.Base.{
  ℕ, ◌-◌, ◌<◌, refl, Bool, true, false, Option, none, some, List, [], ◌∷◌, ◌++◌, arith, take,
  length, leb, if◌then◌else◌,
}
use rusbmux.Base.Words.{be16, be32, be16_at, be32_at, as_u32}
use rusbmux.Base.Parser.{
  Parser, Reply, ok, err, panic, IoErrorKind, ParseError, invalid_data, ◌>>=◌, ◌>>◌, return, ensure,
  remaining, advance, read_exact,
}
use rusbmux.DeviceMux.Protocol.{UsbDevicePacketProtocol, version, control, setup, tcp, to_u32}
use rusbmux.DeviceMux.Protocol

pub record UsbDevicePacketHeaderV1 : Type 0 where
  pub protocol : ℕ
  pub length : ℕ

pub record UsbDevicePacketHeaderV2 : Type 0 where
  pub protocol : ℕ
  pub length : ℕ
  pub magic : ℕ
  pub send_seq : ℕ
  pub recv_seq : ℕ

abbrev pub device_mux_header_v2_magic : ℕ
device_mux_header_v2_magic = 0xfeed_face

-- `size_of` of the two `repr(C)` structs.
abbrev pub v1_size : ℕ
v1_size = 8

abbrev pub v2_size : ℕ
v2_size = 16

abbrev pub new_v1 : UsbDevicePacketProtocol → ℕ → UsbDevicePacketHeaderV1
new_v1 p len = record { protocol = to_u32 p; length = len }

-- The length is a `usize`, cut to a u32.
abbrev pub new_v2 : UsbDevicePacketProtocol → ℕ → ℕ → ℕ → UsbDevicePacketHeaderV2
new_v2 p len send recv = record {
  protocol = to_u32 p;
  length = as_u32 len;
  magic = device_mux_header_v2_magic;
  send_seq = send;
  recv_seq = recv;
}

abbrev pub decode_v1 : List ℕ → UsbDevicePacketHeaderV1
decode_v1 bs = record { protocol = be32_at bs 0; length = be32_at bs 4 }

abbrev pub decode_v2 : List ℕ → UsbDevicePacketHeaderV2
decode_v2 bs = record {
  protocol = be32_at bs 0;
  length = be32_at bs 4;
  magic = be32_at bs 8;
  send_seq = be16_at bs 12;
  recv_seq = be16_at bs 14;
}

abbrev pub encode_v1 : UsbDevicePacketHeaderV1 → List ℕ
encode_v1 h = be32 h.protocol (be32 h.length [])

abbrev pub encode_v2 : UsbDevicePacketHeaderV2 → List ℕ
encode_v2 h = be32 h.protocol (be32 h.length (be32 h.magic (be16 h.send_seq (be16 h.recv_seq []))))

pub data UsbDevicePacketHeader : Type 0 where
  v1 : UsbDevicePacketHeaderV1 → UsbDevicePacketHeader
  v2 : UsbDevicePacketHeaderV2 → UsbDevicePacketHeader

abbrev pub as_v1 : UsbDevicePacketHeader → Option UsbDevicePacketHeaderV1
as_v1 (v1 h) = some h
as_v1 (v2 h) = none

abbrev pub as_v2 : UsbDevicePacketHeader → Option UsbDevicePacketHeaderV2
as_v2 (v1 h) = none
as_v2 (v2 h) = some h

abbrev pub is_v2 : UsbDevicePacketHeader → Bool
is_v2 (v1 h) = false
is_v2 (v2 h) = true

abbrev pub size : UsbDevicePacketHeader → ℕ
size (v1 h) = v1_size
size (v2 h) = v2_size

abbrev pub raw_protocol : UsbDevicePacketHeader → ℕ
raw_protocol (v1 h) = h.protocol
raw_protocol (v2 h) = h.protocol

unfoldable pub get_protocol : UsbDevicePacketHeader → Parser UsbDevicePacketProtocol
get_protocol h = Protocol.from_u32_unchecked (raw_protocol h)

abbrev pub get_length : UsbDevicePacketHeader → ℕ
get_length (v1 h) = h.length
get_length (v2 h) = h.length

-- Only the first four bytes are checked for; a slice that ends inside the header panics.
from_slice_as : UsbDevicePacketProtocol → Parser UsbDevicePacketHeader
from_slice_as version = do h ← advance v1_size; return (v1 (decode_v1 h))
from_slice_as _ = do h ← advance v2_size; return (v2 (decode_v2 h))

unfoldable pub from_slice : Parser UsbDevicePacketHeader
unfolding from_slice_as
from_slice = do
  s ← remaining
  ensure (leb 4 (length s)) invalid_data
  protocol ← Protocol.new (take 4 s)
  from_slice_as protocol

-- Both headers begin alike, so the second half of a version 2 header is read when it is known to be one.
from_reader_as : IoErrorKind → List ℕ → UsbDevicePacketProtocol → Parser UsbDevicePacketHeader
from_reader_as end front version = return (v1 (decode_v1 front))
from_reader_as end front _ = do
  back ← read_exact end (v2_size - v1_size)
  return (v2 (decode_v2 (front ++ back)))

unfoldable pub from_reader : IoErrorKind → Parser UsbDevicePacketHeader
unfolding from_reader_as
from_reader end = do
  front ← read_exact end v1_size
  protocol ← Protocol.new (take 4 front)
  from_reader_as end front protocol

abbrev pub encode : UsbDevicePacketHeader → List ℕ
encode (v1 h) = encode_v1 h
encode (v2 h) = encode_v2 h

abbrev pub encode_into : UsbDevicePacketHeader → List ℕ → List ℕ
encode_into h buf = buf ++ encode h

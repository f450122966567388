-- ===== src/DeviceMux/Packet.antt =====
-- parser/device_mux/mod.rs: `UsbDevicePacket`, read from a slice or from a stream, and written.
pub mod Parts
pub mod RoundTrip
pub mod Reading
pub mod Leaving
pub mod Faults
use rusbmux.Base.{
  ℕ, ◌+◌, ◌-◌, ◌≡◌, Bool, true, false, ◌&&◌, Option, none, some, List, [], ◌∷◌, ◌++◌, length, leb,
  if◌then◌else◌,
}
use rusbmux.Base.Parser.{
  Parser, Reply, ok, err, panic, IoErrorKind, ParseError, invalid_data, tcp_header_slice, ◌>>=◌,
  ◌>>◌, return, raise, remaining, ensure, advance, read_exact,
}
use rusbmux.Extern.{Extern, TcpHeader, tcp_min_len}
use rusbmux.DeviceMux.Protocol.{UsbDevicePacketProtocol, is_tcp}
use rusbmux.DeviceMux.Header
use rusbmux.DeviceMux.Header.{UsbDevicePacketHeader, v2_size}
use rusbmux.DeviceMux.Payload
use rusbmux.DeviceMux.Payload.{UsbDevicePacketPayload}

pub record UsbDevicePacket : Type 0 where
  pub header : UsbDevicePacketHeader
  pub tcp_hdr : Option TcpHeader
  pub payload : UsbDevicePacketPayload

abbrev pub headers_len_v2 : ℕ
headers_len_v2 = v2_size + tcp_min_len

module _ (x : Extern) where
  -- `tcp_hdr.as_ref().map_or(0, TcpHeader::header_len)`
  abbrev pub tcp_hdr_len : Option TcpHeader → ℕ
  tcp_hdr_len none = 0
  tcp_hdr_len (some h) = x.header_len h

  abbrev pub total_header_len : UsbDevicePacketHeader → Option TcpHeader → ℕ
  total_header_len h t = Header.size h + tcp_hdr_len t

  -- `TcpHeader::from_slice(s)`, after which `s` is what follows the header.
  abbrev pub tcp_from_slice : Parser (Option TcpHeader)
  tcp_from_slice s = elim (x.tcp_from_slice s) [
    | none ↦ err invalid_data s
    | some (h, rest) ↦ ok (some h) rest
  ]

  abbrev slice_tcp_hdr : Bool → Parser (Option TcpHeader)
  slice_tcp_hdr true = tcp_from_slice
  slice_tcp_hdr false = return none

  pub slice_payload :
      UsbDevicePacketHeader → UsbDevicePacketProtocol → Option TcpHeader → Parser UsbDevicePacket
  slice_payload header protocol tcp_hdr = do
    let headers = total_header_len header tcp_hdr
    ensure (leb headers (Header.get_length header)) invalid_data
    let payload_len = Header.get_length header - headers
    s ← remaining
    ensure (leb payload_len (length s)) invalid_data
    bs ← advance payload_len
    payload ← Payload.decode x bs protocol
    return (record { header = header; tcp_hdr = tcp_hdr; payload = payload })

  unfoldable pub from_slice : Parser UsbDevicePacket
  unfolding slice_payload
  from_slice = do
    header ← Header.from_slice
    protocol ← Header.get_protocol header
    tcp_hdr ← slice_tcp_hdr (is_tcp protocol && Header.is_v2 header)
    slice_payload header protocol tcp_hdr

  -- Twenty bytes, parsed by `TcpHeader::from_slice`; its own error is passed on.
  abbrev pub parse_tcp_hdr : List ℕ → Parser (Option TcpHeader)
  parse_tcp_hdr buff s = elim (x.tcp_from_slice buff) [
    | none ↦ err tcp_header_slice s
    | some (h, _) ↦ ok (some h) s
  ]

  abbrev read_tcp_hdr : IoErrorKind → Bool → Parser (Option TcpHeader)
  read_tcp_hdr end true = do buff ← read_exact end tcp_min_len; parse_tcp_hdr buff
  read_tcp_hdr end false = return none

  pub read_payload :
      IoErrorKind
      → UsbDevicePacketHeader
      → UsbDevicePacketProtocol
      → Option TcpHeader
      → Parser UsbDevicePacket
  read_payload end header protocol tcp_hdr = do
    let headers = total_header_len header tcp_hdr
    ensure (leb headers (Header.get_length header)) invalid_data
    bs ← read_exact end (Header.get_length header - headers)
    payload ← Payload.decode x bs protocol
    return (record { header = header; tcp_hdr = tcp_hdr; payload = payload })

  unfoldable pub from_reader : IoErrorKind → Parser UsbDevicePacket
  unfolding read_payload
  from_reader end = do
    header ← Header.from_reader end
    protocol ← Header.get_protocol header
    tcp_hdr ← read_tcp_hdr end (is_tcp protocol)
    read_payload end header protocol tcp_hdr

  abbrev tcp_hdr_bytes : Option TcpHeader → List ℕ
  tcp_hdr_bytes none = []
  tcp_hdr_bytes (some h) = x.to_bytes h

  pub inner_encode_into : UsbDevicePacket → List ℕ → List ℕ
  inner_encode_into p buf =
      Payload.encode_into p.payload (Header.encode_into p.header buf ++ tcp_hdr_bytes p.tcp_hdr)

  pub encode_into : UsbDevicePacket → List ℕ → List ℕ
  encode_into = inner_encode_into

  pub encode : UsbDevicePacket → List ℕ
  encode p = inner_encode_into p []

  -- The subtractions are on `usize`; `none` is an overflow, which panics in a checked build.
  unfoldable pub get_payload_len_from_headers : UsbDevicePacket → Option ℕ
  get_payload_len_from_headers p =
      if leb (total_header_len p.header p.tcp_hdr) (Header.get_length p.header)
      then some (Header.get_length p.header - Header.size p.header - tcp_hdr_len p.tcp_hdr)
      else none

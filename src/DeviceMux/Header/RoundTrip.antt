-- ===== src/DeviceMux/Header/RoundTrip.antt =====
-- parser/device_mux/mod.rs: the packet headers read back what they write, from a slice and from a
-- stream.
use rusbmux.Base.{ℕ, ◌≡◌, refl, some, List, [], ◌++◌, arith, ◌⊎◌, inl, inr, ◌≢◌}
use rusbmux.Base.Words.{be16, be32, be32_at, IsU16, IsU32}
use rusbmux.Base.Parser.{ok, IoErrorKind, advance-append, read_exact-append}
use rusbmux.DeviceMux.Protocol.{UsbDevicePacketProtocol, version, control, setup, tcp, to_u32}
use rusbmux.DeviceMux.Protocol
use rusbmux.DeviceMux.Header.{
  UsbDevicePacketHeader, UsbDevicePacketHeaderV1, UsbDevicePacketHeaderV2, v1, v2, decode_v1,
  decode_v2, encode_v1, encode_v2, encode, from_slice, from_slice_as, from_reader, from_reader_as,
}

-- The headers that fit their fields and state a protocol that the variant carries.
abbrev pub IsHeader : UsbDevicePacketHeader → Type 0
IsHeader (v1 h) = (h.protocol ≡ 0) × IsU32 h.length
IsHeader (v2 h) =
    ((h.protocol ≡ 1) ⊎ ((h.protocol ≡ 2) ⊎ (h.protocol ≡ 6)))
    × IsU32 h.length
    × IsU32 h.magic
    × IsU16 h.send_seq
    × IsU16 h.recv_seq

new-be32 :
    (v : ℕ) (p : UsbDevicePacketProtocol) (s : List ℕ)
    → IsU32 v
    → Protocol.try_from v ≡ some p
    → Protocol.new (be32 v []) s ≡ ok p s
unfolding Protocol.new
new-be32 v p s h e = let q : be32_at (be32 v []) 0 ≡ v = omega arith in rw (q, Protocol.new, e)

decode_v1-encode_v1 :
    (h : UsbDevicePacketHeaderV1) → h.protocol ≡ 0 → IsU32 h.length → decode_v1 (encode_v1 h) ≡ h
decode_v1-encode_v1 h p l = ground arith

decode_v2-encode_v2 : (h : UsbDevicePacketHeaderV2) → IsHeader (v2 h) → decode_v2 (encode_v2 h) ≡ h
decode_v2-encode_v2 h (p, l, m, s, r) = ground arith

protocol_of_v2 :
    (n : ℕ)
    → (n ≡ 1) ⊎ ((n ≡ 2) ⊎ (n ≡ 6))
    → (p : UsbDevicePacketProtocol) × (Protocol.try_from n ≡ some p) × IsU32 n × (p ≢ version)
unfolding Protocol.try_from
protocol_of_v2 n (inl e) = (control, ground arith, omega arith, λ q. cc)
protocol_of_v2 n (inr (inl e)) = (setup, ground arith, omega arith, λ q. cc)
protocol_of_v2 n (inr (inr e)) = (tcp, ground arith, omega arith, λ q. cc)

version_zero : (n : ℕ) → n ≡ 0 → Protocol.try_from n ≡ some version
unfolding Protocol.try_from
version_zero n e = ground arith

from_slice_as-v2 :
    (p : UsbDevicePacketProtocol) (h : UsbDevicePacketHeaderV2) (rest : List ℕ)
    → p ≢ version
    → IsHeader (v2 h)
    → from_slice_as p (encode_v2 h ++ rest) ≡ ok (v2 h) rest
unfolding from_slice_as
from_slice_as-v2 version h rest n w = absurd (n refl)
from_slice_as-v2 _ h rest n w =
    ground (arith, advance-append 16 (encode_v2 h) rest refl, decode_v2-encode_v2 h w)

-- Read from a slice, the bytes that a header writes give the header and leave what follows.
pub from_slice-encode :
    (h : UsbDevicePacketHeader) (rest : List ℕ)
    → IsHeader h
    → from_slice (encode h ++ rest) ≡ ok h rest
unfolding from_slice
from_slice-encode (v1 h) rest (p, l) = ground (
  arith,
  new-be32 h.protocol version (encode_v1 h ++ rest) (omega arith) (version_zero _ p),
  advance-append 8 (encode_v1 h) rest refl,
  decode_v1-encode_v1 h p l,
)
from_slice-encode (v2 h) rest w =
    let (p, e, u, n) = protocol_of_v2 h.protocol w.0 in
    ground (arith, new-be32 h.protocol p (encode_v2 h ++ rest) u e, from_slice_as-v2 p h rest n w)

abbrev first_half : UsbDevicePacketHeaderV2 → List ℕ
first_half h = be32 h.protocol (be32 h.length [])

abbrev second_half : UsbDevicePacketHeaderV2 → List ℕ
second_half h = be32 h.magic (be16 h.send_seq (be16 h.recv_seq []))

from_reader_as-v2 :
    (end : IoErrorKind) (p : UsbDevicePacketProtocol) (h : UsbDevicePacketHeaderV2) (rest : List ℕ)
    → p ≢ version
    → IsHeader (v2 h)
    → from_reader_as end (first_half h) p (second_half h ++ rest) ≡ ok (v2 h) rest
unfolding from_reader_as
from_reader_as-v2 end version h rest n w = absurd (n refl)
from_reader_as-v2 end _ h rest n w =
    ground (arith, read_exact-append end 8 (second_half h) rest refl, decode_v2-encode_v2 h w)

-- So it is when the header is read from a stream.
pub from_reader-encode :
    (end : IoErrorKind) (h : UsbDevicePacketHeader) (rest : List ℕ)
    → IsHeader h
    → from_reader end (encode h ++ rest) ≡ ok h rest
unfolding from_reader
from_reader-encode end (v1 h) rest (p, l) = ground (
  arith,
  read_exact-append end 8 (encode_v1 h) rest refl,
  new-be32 h.protocol version rest (omega arith) (version_zero _ p),
  decode_v1-encode_v1 h p l,
)
from_reader-encode end (v2 h) rest w =
    let (p, e, u, n) = protocol_of_v2 h.protocol w.0 in
    ground (
      arith,
      read_exact-append end 8 (first_half h) (second_half h ++ rest) refl,
      new-be32 h.protocol p (second_half h ++ rest) u e,
      from_reader_as-v2 end p h rest n w,
    )

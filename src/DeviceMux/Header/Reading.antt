-- ===== src/DeviceMux/Header/Reading.antt =====
-- parser/device_mux/mod.rs: what the two header readers do on any input.
use rusbmux.Base.{
  ℕ, ◌+◌, ◌≡◌, ◌≢◌, ◌≤◌, ◌<◌, refl, none, some, List, [], arith, take, drop, length, leb, ltb, inl,
  inr, Option-cases, Bool-cases, take-take, take-append-take-drop, drop-drop, length-drop,
  if◌then◌else◌,
}
use rusbmux.Base.Words.{be32_at, be32_at-take}
use rusbmux.Base.Parser.{
  Reply, ok, err, panic, undefined, IoErrorKind, io, invalid_data, advance, read_exact, Leaves,
}
use rusbmux.DeviceMux.Protocol.{UsbDevicePacketProtocol, version, control, setup, tcp}
use rusbmux.DeviceMux.Protocol
use rusbmux.DeviceMux.Header.{
  UsbDevicePacketHeader, v1, v2, size, raw_protocol, decode_v1, decode_v2, from_slice,
  from_slice_as, from_reader, from_reader_as, get_protocol,
}

-- The header at the front of `s`, in the layout that the protocol calls for.
abbrev pub header_at : UsbDevicePacketProtocol → List ℕ → UsbDevicePacketHeader
header_at version s = v1 (decode_v1 (take 8 s))
header_at _ s = v2 (decode_v2 (take 16 s))

-- The first four bytes of `s` name the protocol `p`.
abbrev pub Names : UsbDevicePacketProtocol → List ℕ → Type 0
Names p s = Protocol.try_from (be32_at s 0) ≡ some p

-- `h` is the header at the front of `s`, of protocol `p`, and `rest` is what follows it.
pub record IsHeaderOf (s : List ℕ) (h : UsbDevicePacketHeader) (rest : List ℕ)
    (p : UsbDevicePacketProtocol) : Type 0 where
  pub named : Names p s
  pub is_header : h ≡ header_at p s
  pub fits : size h ≤ length s
  pub remains : rest ≡ drop (size h) s

header_at-protocol :
    (p : UsbDevicePacketProtocol) (s : List ℕ) → raw_protocol (header_at p s) ≡ be32_at s 0
header_at-protocol version s = be32_at-take 8 s (omega arith)
header_at-protocol _ s = be32_at-take 16 s (omega arith)

-- What `from_slice` returns, in closed form.
slice_result : UsbDevicePacketProtocol → List ℕ → Reply UsbDevicePacketHeader
slice_result p s =
    let n = size (header_at p s) in
    if leb n (length s) then ok (header_at p s) (drop n s) else panic

from_slice_as-result :
    (p : UsbDevicePacketProtocol) (s : List ℕ) → from_slice_as p s ≡ slice_result p s
unfolding from_slice_as slice_result advance
from_slice_as-result version s = ground arith
from_slice_as-result _ s = ground arith

from_slice-short : (s : List ℕ) → length s < 4 → from_slice s ≡ err invalid_data s
unfolding from_slice
from_slice-short s h = ground arith

from_slice-unknown :
    (s : List ℕ)
    → 4 ≤ length s
    → Protocol.try_from (be32_at s 0) ≡ none
    → from_slice s ≡ err invalid_data s
unfolding from_slice Protocol.new
from_slice-unknown s h e = ground (arith, be32_at-take 4 s (omega arith))

from_slice-named :
    (p : UsbDevicePacketProtocol) (s : List ℕ)
    → 4 ≤ length s
    → Names p s
    → from_slice s ≡ slice_result p s
unfolding from_slice Protocol.new
from_slice-named p s h e = ground (arith, be32_at-take 4 s (omega arith), from_slice_as-result p s)

-- What `from_reader` returns once the protocol is known.
reader_result : IoErrorKind → UsbDevicePacketProtocol → List ℕ → Reply UsbDevicePacketHeader
reader_result end p s =
    let n = size (header_at p s) in
    if leb n (length s) then ok (header_at p s) (drop n s) else err (io end) []

from_reader_as-result :
    (end : IoErrorKind) (p : UsbDevicePacketProtocol) (s : List ℕ)
    → 8 ≤ length s
    → from_reader_as end (take 8 s) p (drop 8 s) ≡ reader_result end p s
unfolding from_reader_as reader_result read_exact
from_reader_as-result end version s h = ground arith
from_reader_as-result end _ s h =
    ground (arith, length-drop 8 s, take-append-take-drop 8 8 s, drop-drop 8 8 s)

pub from_reader-short :
    (end : IoErrorKind) (s : List ℕ) → length s < 8 → from_reader end s ≡ err (io end) []
unfolding from_reader read_exact
from_reader-short end s h = ground arith

from_reader-unknown :
    (end : IoErrorKind) (s : List ℕ)
    → 8 ≤ length s
    → Protocol.try_from (be32_at s 0) ≡ none
    → from_reader end s ≡ err invalid_data (drop 8 s)
unfolding from_reader read_exact Protocol.new
from_reader-unknown end s h e =
    ground (arith, take-take 4 8 s (omega arith), be32_at-take 4 s (omega arith))

from_reader-named :
    (end : IoErrorKind) (p : UsbDevicePacketProtocol) (s : List ℕ)
    → 8 ≤ length s
    → Names p s
    → from_reader end s ≡ reader_result end p s
unfolding from_reader read_exact Protocol.new
from_reader-named end p s h e = ground (
  arith,
  take-take 4 8 s (omega arith),
  be32_at-take 4 s (omega arith),
  from_reader_as-result end p s h,
)

-- A header that `from_slice` returns is that at the front of the slice, of a known protocol.
pub from_slice-IsHeaderOf :
    (s : List ℕ) (h : UsbDevicePacketHeader) (rest : List ℕ)
    → from_slice s ≡ ok h rest
    → (p : UsbDevicePacketProtocol) × IsHeaderOf s h rest p
unfolding slice_result
from_slice-IsHeaderOf s h rest e = elim (Bool-cases (ltb (length s) 4)) [
  | inl short ↦ absurd (ground (arith, from_slice-short s (ground arith)))
  | inr long ↦ elim (Option-cases (Protocol.try_from (be32_at s 0))) [
    | inl unknown ↦ absurd (ground (arith, from_slice-unknown s (ground arith) unknown))
    | inr (p, named) ↦ (p, ground (arith, from_slice-named p s (ground arith) named))
  ]
]

-- So it is for `from_reader`.
pub from_reader-IsHeaderOf :
    (end : IoErrorKind) (s : List ℕ) (h : UsbDevicePacketHeader) (rest : List ℕ)
    → from_reader end s ≡ ok h rest
    → (p : UsbDevicePacketProtocol) × IsHeaderOf s h rest p
unfolding reader_result
from_reader-IsHeaderOf end s h rest e = elim (Bool-cases (ltb (length s) 8)) [
  | inl short ↦ absurd (ground (arith, from_reader-short end s (ground arith)))
  | inr long ↦ elim (Option-cases (Protocol.try_from (be32_at s 0))) [
    | inl unknown ↦ absurd (ground (arith, from_reader-unknown end s (ground arith) unknown))
    | inr (p, named) ↦ (p, ground (arith, from_reader-named end p s (ground arith) named))
  ]
]

size_least : (p : UsbDevicePacketProtocol) (s : List ℕ) → 8 ≤ size (header_at p s)
size_least version s = omega arith
size_least _ s = omega arith

pub IsHeaderOf-from_slice :
    (s : List ℕ) (h : UsbDevicePacketHeader) (rest : List ℕ) (p : UsbDevicePacketProtocol)
    → IsHeaderOf s h rest p
    → from_slice s ≡ ok h rest
unfolding slice_result
IsHeaderOf-from_slice s h rest p v =
    let least = size_least p s in
    ground (
      arith,
      least,
      from_slice-named p s (ground (arith, least, v)) v.named,
      v.is_header,
      v.remains,
      v.fits,
    )

pub IsHeaderOf-from_reader :
    (end : IoErrorKind) (s : List ℕ) (h : UsbDevicePacketHeader) (rest : List ℕ)
    (p : UsbDevicePacketProtocol)
    → IsHeaderOf s h rest p
    → from_reader end s ≡ ok h rest
unfolding reader_result
IsHeaderOf-from_reader end s h rest p v =
    let least = size_least p s in
    ground (
      arith,
      least,
      from_reader-named end p s (ground (arith, least, v)) v.named,
      v.is_header,
      v.remains,
      v.fits,
    )

-- Its protocol is read back from the header itself, so the transmute is defined.
pub IsHeaderOf-get_protocol :
    (s : List ℕ) (h : UsbDevicePacketHeader) (rest : List ℕ) (p : UsbDevicePacketProtocol)
    (t : List ℕ)
    → IsHeaderOf s h rest p
    → get_protocol h t ≡ ok p t
unfolding get_protocol Protocol.from_u32_unchecked
IsHeaderOf-get_protocol s h rest p t v =
    ground (arith, v.is_header, v.named, header_at-protocol p s)

-- A slice that holds the protocol and not the whole header makes the reader panic.
pub from_slice-truncated :
    (p : UsbDevicePacketProtocol) (s : List ℕ)
    → Names p s
    → 4 ≤ length s
    → length s < size (header_at p s)
    → from_slice s ≡ panic
unfolding slice_result
from_slice-truncated p s e h l = ground (arith, from_slice-named p s h e)

pub from_reader-ne-panic :
    (end : IoErrorKind) (s : List ℕ) → (from_reader end s ≢ panic) × (from_reader end s ≢ undefined)
unfolding reader_result
from_reader-ne-panic end s = elim (Bool-cases (ltb (length s) 8)) [
  | inl short ↦ (
    λ e. ground (arith, from_reader-short end s (ground arith)),
    λ e. ground (arith, from_reader-short end s (ground arith)),
  )
  | inr long ↦ elim (Option-cases (Protocol.try_from (be32_at s 0))) [
    | inl unknown ↦ (
      λ e. ground (arith, from_reader-unknown end s (ground arith) unknown),
      λ e. ground (arith, from_reader-unknown end s (ground arith) unknown),
    )
    | inr (p, named) ↦ (
      λ e. ground (arith, from_reader-named end p s (ground arith) named),
      λ e. ground (arith, from_reader-named end p s (ground arith) named),
    )
  ]
]

pub IsHeaderOf-version :
    (s : List ℕ)
    → Names version s
    → 8 ≤ length s
    → IsHeaderOf s (v1 (decode_v1 (take 8 s))) (drop 8 s) version
IsHeaderOf-version s e h = record { named = e; is_header = refl; fits = h; remains = refl }

-- Unless it fails for want of bytes, the reader has taken eight of them.
pub from_reader-Leaves :
    (end : IoErrorKind) (n : ℕ) (s : List ℕ) → length s ≤ n + 8 → Leaves n (from_reader end s)
unfolding reader_result
from_reader-Leaves end n s l = elim (Bool-cases (ltb (length s) 8)) [
  | inl short ↦ ground (arith, from_reader-short end s (ground arith))
  | inr long ↦ elim (Option-cases (Protocol.try_from (be32_at s 0))) [
    | inl unknown ↦
        ground (arith, from_reader-unknown end s (ground arith) unknown, length-drop 8 s)
    | inr (p, named) ↦ ground (
      arith,
      from_reader-named end p s (ground arith) named,
      size_least p s,
      length-drop (size (header_at p s)) s,
    )
  ]
]

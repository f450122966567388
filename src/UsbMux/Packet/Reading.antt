-- ===== src/UsbMux/Packet/Reading.antt =====
-- parser/usbmux.rs: what `UsbMuxPacket::from_reader` does on any input, and how far it reads.
use rusbmux.Base.{
  ℕ, ◌-◌, ◌≡◌, ◌≤◌, List, [], arith, length, take, drop, drop-drop, length-drop, ◌≢◌,
}
use rusbmux.Base.Words.{le32_at}
use rusbmux.Base.Parser.{
  ok, err, panic, undefined, IoErrorKind, ParseError, io, plist, tcp_header_slice, invalid_data,
  read_exact,
}
use rusbmux.UsbMux.Header
use rusbmux.UsbMux.Header.{UsbMuxHeader, pod_read}
use rusbmux.UsbMux.Packet.{PlistCodec, UsbMuxPacket, from_reader}

-- The length that the first four bytes state.
abbrev pub stated_len : List ℕ → ℕ
stated_len s = le32_at (take 16 s) 0

module _ {Value : Type 0} (c : PlistCodec Value) where
  from_reader-header :
      (end : IoErrorKind) (s rest : List ℕ) (h : UsbMuxHeader)
      → Header.from_reader end s ≡ ok h rest
      → (16 ≤ length s) × (h.len ≡ stated_len s) × (rest ≡ drop 16 s)
  unfolding Header.from_reader read_exact
  from_reader-header end s rest h e = ground arith

  -- A packet that is returned has taken exactly the bytes that its header counts, sixteen at least.
  pub from_reader-takes :
      (end : IoErrorKind) (s rest : List ℕ) (q : UsbMuxPacket Value)
      → from_reader c end s ≡ ok q rest
      → (16 ≤ q.header.len) × (q.header.len ≤ length s) × (rest ≡ drop q.header.len s)
  unfolding from_reader Header.from_reader read_exact
  from_reader-takes end s rest q e =
      ground (arith, length-drop 16 s, drop-drop 16 (stated_len s - 16) s)

  -- Where an error leaves the stream.
  abbrev pub LeftBy : IoErrorKind → List ℕ → ParseError → List ℕ → Type 0
  LeftBy end s (io kind) rest = (kind ≡ end) × (rest ≡ [])
  LeftBy end s invalid_data rest = (16 ≤ length s) × (rest ≡ drop 16 s)
  LeftBy end s plist rest =
      (16 ≤ stated_len s) × (stated_len s ≤ length s) × (rest ≡ drop (stated_len s) s)
  LeftBy end s tcp_header_slice rest = ⊥

  pub from_reader-LeftBy :
      (end : IoErrorKind) (s rest : List ℕ) (e : ParseError)
      → from_reader c end s ≡ err e rest
      → LeftBy end s e rest
  unfolding from_reader Header.from_reader read_exact
  from_reader-LeftBy end s rest (io kind) h = ground arith
  from_reader-LeftBy end s rest invalid_data h = ground arith
  from_reader-LeftBy end s rest plist h =
      ground (arith, length-drop 16 s, drop-drop 16 (stated_len s - 16) s)
  from_reader-LeftBy end s rest tcp_header_slice h = ground arith

  -- It never panics.
  pub from_reader-ne-panic :
      (end : IoErrorKind) (s : List ℕ)
      → (from_reader c end s ≢ panic) × (from_reader c end s ≢ undefined)
  unfolding from_reader Header.from_reader read_exact
  from_reader-ne-panic end s = (λ e. ground arith, λ e. ground arith)

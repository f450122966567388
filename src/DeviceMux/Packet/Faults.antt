-- ===== src/DeviceMux/Packet/Faults.antt =====
-- parser/device_mux/mod.rs: the inputs on which a packet reader panics.
use rusbmux.Base.{
  ℕ, ◌-◌, ◌≡◌, ◌≢◌, ◌≤◌, ◌<◌, refl, none, List, arith, drop, length, length-drop, length-take,
}
use rusbmux.Base.Parser.{panic, IoErrorKind, read_exact}
use rusbmux.Extern.{Extern}
use rusbmux.DeviceMux.Protocol.{UsbDevicePacketProtocol, version}
use rusbmux.DeviceMux.Header
use rusbmux.DeviceMux.Header.{UsbDevicePacketHeader, v1, decode_v1}
use rusbmux.DeviceMux.Header.Reading.{
  Names, header_at, from_slice-truncated, IsHeaderOf-version, IsHeaderOf-from_reader,
  IsHeaderOf-get_protocol,
}
use rusbmux.DeviceMux.Payload.{decode_version}
use rusbmux.DeviceMux.Packet.{from_slice, from_reader, read_payload}

module _ (x : Extern) where
  -- `from_slice` checks for four bytes only: on a slice that names a known protocol and ends before
  -- the header does, it panics instead of returning an error.
  pub from_slice_truncated_panics :
      (p : UsbDevicePacketProtocol) (s : List ℕ)
      → Names p s
      → 4 ≤ length s
      → length s < Header.size (header_at p s)
      → from_slice x s ≡ panic
  unfolding from_slice
  from_slice_truncated_panics p s e h l = rw (from_slice-truncated p s e h l, from_slice)

  short_version :
      (end : IoErrorKind) (h : UsbDevicePacketHeader) (s : List ℕ)
      → Header.size h ≡ 8
      → 8 ≤ Header.get_length h
      → Header.get_length h ≢ 20
      → Header.get_length h - 8 ≤ length s
      → read_payload x end h version none s ≡ panic
  unfolding read_payload read_exact decode_version
  short_version end h s z l n f = ground (arith, length-take (Header.get_length h - 8) s)

  -- A version packet that is all there, and whose payload is not twelve bytes long, makes `from_reader`
  -- panic.
  pub from_reader_version_panics :
      (end : IoErrorKind) (s : List ℕ)
      → Names version s
      → 8 ≤ Header.get_length (header_at version s)
      → Header.get_length (header_at version s) ≤ length s
      → Header.get_length (header_at version s) ≢ 20
      → from_reader x end s ≡ panic
  unfolding from_reader
  from_reader_version_panics end s e l f n =
      let v = IsHeaderOf-version s e (omega arith) in
      let h = header_at version s in
      rw
        (
          IsHeaderOf-from_reader end s h (drop 8 s) version v,
          from_reader,
          IsHeaderOf-get_protocol s h (drop 8 s) version (drop 8 s) v,
        )
        (short_version end h (drop 8 s) refl l n (omega (arith, length-drop 8 s)))

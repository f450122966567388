-- ===== src/DeviceMux/Packet/Leaving.antt =====
-- parser/device_mux/mod.rs: how much of the stream `UsbDevicePacket::from_reader` leaves.
use rusbmux.Base.{
  ℕ, ◌+◌, ◌-◌, ◌≡◌, ◌≤◌, ◌<◌, Bool, Option, List, [], arith, length, length-drop, length-take,
}
use rusbmux.Base.Parser.{Leaves, err, io, Leaves->>=, IoErrorKind, read_exact}
use rusbmux.Extern.{Extern, TcpHeader}
use rusbmux.DeviceMux.Packet.{from_reader, read_payload, read_tcp_hdr, total_header_len}
use rusbmux.DeviceMux.Payload.{decode_version}
use rusbmux.DeviceMux.Header
use rusbmux.DeviceMux.Header.{UsbDevicePacketHeader}
use rusbmux.DeviceMux.Header.Reading.{from_reader-Leaves, from_reader-short}
use rusbmux.DeviceMux.Protocol.{
  UsbDevicePacketProtocol, version, control, setup, tcp, is_tcp, from_u32_unchecked,
}

module _ (x : Extern) (end : IoErrorKind) where
  get_protocol-Leaves :
      (n : ℕ) (h : UsbDevicePacketHeader) (s : List ℕ)
      → length s ≤ n
      → Leaves n (Header.get_protocol h s)
  unfolding Header.get_protocol from_u32_unchecked
  get_protocol-Leaves n h s l = ground arith

  read_tcp_hdr-Leaves :
      (n : ℕ) (b : Bool) (s : List ℕ) → length s ≤ n → Leaves n (read_tcp_hdr x end b s)
  unfolding read_exact
  read_tcp_hdr-Leaves n b s l = ground (arith, length-drop 20 s)

  read_payload-Leaves :
      (n : ℕ) (h : UsbDevicePacketHeader) (p : UsbDevicePacketProtocol) (t : Option TcpHeader)
      (s : List ℕ)
      → length s ≤ n
      → Leaves n (read_payload x end h p t s)
  unfolding read_payload read_exact decode_version
  read_payload-Leaves n h p t s l =
      let k = Header.get_length h - total_header_len x h t in
      elim p [
        | version ↦ ground (arith, length-drop k s, length-take k s)
        | control ↦ ground (arith, length-drop k s)
        | setup ↦ ground (arith, length-drop k s)
        | tcp ↦ ground (arith, length-drop k s)
      ]

  -- Where `from_reader` does not fail for want of bytes, it has taken the first eight.
  pub packet-Leaves : (n : ℕ) (s : List ℕ) → length s ≤ n + 8 → Leaves n (from_reader x end s)
  unfolding from_reader
  packet-Leaves n s l =
      Leaves->>= n (Header.from_reader end s) _ (from_reader-Leaves end n s l) λ h s1 l1.
        Leaves->>= n (Header.get_protocol h s1) _ (get_protocol-Leaves n h s1 l1) λ p s2 l2.
          Leaves->>= n (read_tcp_hdr x end (is_tcp p) s2) _ (read_tcp_hdr-Leaves n (is_tcp p) s2 l2)
            λ t s3 l3. read_payload-Leaves n h p t s3 l3

  pub packet-short : (s : List ℕ) → length s < 8 → from_reader x end s ≡ err (io end) []
  unfolding from_reader
  packet-short s l = rw (from_reader-short end s l)

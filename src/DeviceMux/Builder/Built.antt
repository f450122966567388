-- ===== src/DeviceMux/Builder/Built.antt =====
-- parser/device_mux/builder.rs: the packets that the builder makes from values in range, and that
-- both readers read them back.
use rusbmux.Base.{
  ℕ, ◌+◌, ◌≡◌, ◌<◌, ◌^◌, refl, List, [], ◌∷◌, ◌++◌, arith, length, length-append, inl, inr,
}
use rusbmux.Base.Words.{IsU16, IsU32}
use rusbmux.Base.Parser.{ok, IoErrorKind}
use rusbmux.Extern.{Extern, ExternLaws, TcpHeader, IsTcpHeader}
use rusbmux.DeviceMux.Packet.{UsbDevicePacket, from_slice, from_reader, encode}
use rusbmux.DeviceMux.Packet.Parts.{IsPacket}
use rusbmux.DeviceMux.Packet.RoundTrip.{
  NoOptions, from_slice-encode_packet, from_reader-encode_packet,
}
use rusbmux.DeviceMux.Builder.{
  TcpFlags, Empty, UsbDevicePacketBuilder, Seqs, builder, payload_version, payload_plist,
  payload_bytes, header_tcp, header_version, header_setup, tcp_header, build_ack, build_plist,
  build_bytes, build_version, build_setup, plist_payload, new_tcp_header, tcp_packet,
}

-- The numbers that the callers hand to `header_tcp` and `tcp_header` have the types u16 and u32.
pub record TcpArguments : Type 0 where
  pub send_seq : ℕ
  pub recv_seq : ℕ
  pub source_port : ℕ
  pub destination_port : ℕ
  pub sequence_number : ℕ
  pub acknowledgment_number : ℕ
  pub flags : TcpFlags

pub record InRange (a : TcpArguments) : Type 0 where
  pub send_seq_fits : IsU16 a.send_seq
  pub recv_seq_fits : IsU16 a.recv_seq
  pub source_port_fits : IsU16 a.source_port
  pub destination_port_fits : IsU16 a.destination_port
  pub sequence_number_fits : IsU32 a.sequence_number
  pub acknowledgment_number_fits : IsU32 a.acknowledgment_number

module _ (x : Extern) where
  -- `.header_tcp(…).tcp_header(…)`
  abbrev pub with_tcp :
      {P : Type 0}
      → UsbDevicePacketBuilder P Empty Empty
      → TcpArguments
      → UsbDevicePacketBuilder P Seqs TcpHeader
  with_tcp b a =
      tcp_header x (header_tcp b a.send_seq a.recv_seq) a.source_port a.destination_port
        a.sequence_number a.acknowledgment_number a.flags

  -- The packets of the program: an acknowledgment, a plist, bytes, a version and a setup packet.
  pub data Built : UsbDevicePacket → Type 1 where
    an_ack : (a : TcpArguments) → InRange a → Built (build_ack (with_tcp builder a))
    a_plist :
        (a : TcpArguments) {Value : Type 0} (to_writer_xml : Value → List ℕ) (value : Value)
        → InRange a
        → length (to_writer_xml value) + 41 < 2 ^ 32
        → Built (build_plist to_writer_xml (with_tcp (payload_plist builder value) a))
    some_bytes :
        (a : TcpArguments) (value : List ℕ)
        → InRange a
        → length value + 36 < 2 ^ 32
        → Built (build_bytes (with_tcp (payload_bytes builder value) a))
    a_version :
        (major minor : ℕ)
        → IsU32 major
        → IsU32 minor
        → Built (build_version (payload_version (header_version builder) major minor))
    a_setup :
        (value : List ℕ)
        → length value + 16 < 2 ^ 32
        → Built (build_setup (payload_bytes (header_setup builder) value))

module _ (x : Extern) (laws : ExternLaws x) where
  new_tcp_header-IsTcpHeader :
      (a : TcpArguments)
      → InRange a
      → IsTcpHeader x (
          new_tcp_header x a.source_port a.destination_port a.sequence_number
            a.acknowledgment_number a.flags)
  new_tcp_header-IsTcpHeader a r = record {
    source_port_fits = r.source_port_fits;
    destination_port_fits = r.destination_port_fits;
    sequence_number_fits = r.sequence_number_fits;
    acknowledgment_number_fits = r.acknowledgment_number_fits;
    window_size_fits = omega arith;
    others_fit = laws.default_others_fit;
  }

  tcp_packet-IsPacket :
      (a : TcpArguments) (value : List ℕ)
      → InRange a
      → length value + 36 < 2 ^ 32
      → IsPacket x (
          tcp_packet value
            (a.send_seq, a.recv_seq)
            (new_tcp_header x a.source_port a.destination_port a.sequence_number
              a.acknowledgment_number a.flags))
  unfolding tcp_packet
  tcp_packet-IsPacket a value r h =
      let hdr =
        new_tcp_header x a.source_port a.destination_port a.sequence_number a.acknowledgment_number
          a.flags in
      record {
        header_fits = (inr (inr refl), omega arith, omega arith, r.send_seq_fits, r.recv_seq_fits);
        agrees =
            (refl, omega (arith, laws.default_header_len hdr refl), new_tcp_header-IsTcpHeader a r);
      }

  -- Every packet that the builder makes from values in range is well formed.
  pub Built-IsPacket : {p : UsbDevicePacket} → Built x p → IsPacket x p
  unfolding build_ack build_plist build_bytes build_version build_setup tcp_packet
  Built-IsPacket (an_ack a r) = tcp_packet-IsPacket a [] r (omega arith)
  Built-IsPacket (a_plist a to_writer_xml value r h) =
      tcp_packet-IsPacket a (plist_payload to_writer_xml value) r
        (omega (arith, length-append (to_writer_xml value) (b'\n' ∷ [])))
  Built-IsPacket (some_bytes a value r h) = tcp_packet-IsPacket a value r h
  Built-IsPacket (a_version major minor p q) = record {
    header_fits = (refl, omega arith);
    agrees = (refl, (p, q, omega arith));
  }
  Built-IsPacket (a_setup value h) = record {
    header_fits = (inr (inl refl), omega arith, omega arith, omega arith, omega arith);
    agrees = (refl, omega arith);
  }

  Built-NoOptions : {p : UsbDevicePacket} → Built x p → NoOptions x p.tcp_hdr
  unfolding build_ack build_plist build_bytes build_version build_setup tcp_packet
  Built-NoOptions (an_ack a r) = laws.default_header_len _ refl
  Built-NoOptions (a_plist a to_writer_xml value r h) = laws.default_header_len _ refl
  Built-NoOptions (some_bytes a value r h) = laws.default_header_len _ refl
  Built-NoOptions (a_version major minor p q) = tt
  Built-NoOptions (a_setup value h) = tt

  -- A packet made by the builder from values in range is read back from its bytes, by `from_slice`
  -- and by `from_reader`, and both leave exactly what stands behind it.
  pub built_read_back :
      (end : IoErrorKind) (p : UsbDevicePacket) (rest : List ℕ)
      → Built x p
      → (from_slice x (encode x p ++ rest) ≡ ok p rest)
        × (from_reader x end (encode x p ++ rest) ≡ ok p rest)
  built_read_back end p rest b = (
    from_slice-encode_packet x laws p rest (Built-IsPacket b),
    from_reader-encode_packet x laws end p rest (Built-IsPacket b) (Built-NoOptions b),
  )

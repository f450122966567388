-- ===== src/DeviceMux/Packet/RoundTrip.antt =====
-- parser/device_mux/mod.rs: a packet that is written is read back, by both readers.
use rusbmux.Base.{
  ℕ, ◌≡◌, refl, ◌∙◌, ap, true, Option, none, some, List, [], ◌++◌, arith, append_assoc, append-nil,
}
use rusbmux.Base.Parser.{ok, IoErrorKind, read_exact-append}
use rusbmux.Extern.{Extern, ExternLaws, TcpHeader, IsTcpHeader, tcp_min_len}
use rusbmux.DeviceMux.Protocol.{UsbDevicePacketProtocol, control, setup, tcp}
use rusbmux.DeviceMux.Header
use rusbmux.DeviceMux.Header.{UsbDevicePacketHeader, v1, v2}
use rusbmux.DeviceMux.Header.RoundTrip.{IsHeader, from_slice-encode, from_reader-encode}
use rusbmux.DeviceMux.Payload
use rusbmux.DeviceMux.Payload.{
  UsbDevicePacketPayload, UsbDevicePacketVersion, bytes, version, error, decode_version,
  encode_version,
}
use rusbmux.DeviceMux.Packet.Parts.{
  Agrees, IsPacket, encode_parts, slice_payload_lem, read_payload_lem, length-encode,
  decode_control_lem, decode_version_lem, get_protocol_lem,
}
use rusbmux.DeviceMux.Packet.{
  UsbDevicePacket, from_slice, from_reader, encode, tcp_hdr_bytes, slice_tcp_hdr, read_tcp_hdr,
}

module _ (x : Extern) where
  -- The TCP header, if there is one, has no options, so that it takes twenty bytes.
  abbrev pub NoOptions : Option TcpHeader → Type 0
  NoOptions none = Unit
  NoOptions (some t) = x.header_len t ≡ tcp_min_len

module _ (x : Extern) (laws : ExternLaws x) where
  tcp_hdr-encode :
      (t : TcpHeader) (rest : List ℕ)
      → IsTcpHeader x t
      → slice_tcp_hdr x true (x.to_bytes t ++ rest) ≡ ok (some t) rest
  tcp_hdr-encode t rest v = ground (arith, laws.from_slice_to_bytes t rest v)

  from_slice-parts :
      (h : UsbDevicePacketHeader) (t : Option TcpHeader) (pay : UsbDevicePacketPayload)
      (rest : List ℕ)
      → IsHeader h
      → Agrees x h t pay
      → from_slice x (Header.encode h ++ (tcp_hdr_bytes x t ++ (Payload.encode pay ++ rest)))
        ≡ ok (record { header = h; tcp_hdr = t; payload = pay }) rest
  unfolding from_slice
  from_slice-parts (v1 h) none (version v) rest w a = ground (
    arith,
    from_slice-encode (v1 h) (encode_version v ++ rest) w,
    get_protocol_lem x (v1 h) UsbDevicePacketProtocol.version (encode_version v ++ rest)
        (omega arith),
    slice_payload_lem x (v1 h) UsbDevicePacketProtocol.version none (version v) (encode_version v)
        rest (length-encode x (v1 h) none (version v) a)
        (ground (arith, decode_version_lem x v a.1)),
  )
  from_slice-parts (v2 h) (some t) (bytes b) rest w a = ground (
    arith,
    from_slice-encode (v2 h) (x.to_bytes t ++ (b ++ rest)) w,
    get_protocol_lem x (v2 h) tcp (x.to_bytes t ++ (b ++ rest)) (omega arith),
    tcp_hdr-encode t (b ++ rest) a.2,
    slice_payload_lem x (v2 h) tcp (some t) (bytes b) b rest
        (length-encode x (v2 h) (some t) (bytes b) a) refl,
  )
  from_slice-parts (v2 h) none (bytes b) rest w a = ground (
    arith,
    from_slice-encode (v2 h) (b ++ rest) w,
    get_protocol_lem x (v2 h) setup (b ++ rest) (omega arith),
    slice_payload_lem x (v2 h) setup none (bytes b) b rest (length-encode x (v2 h) none (bytes b) a)
        refl,
  )
  from_slice-parts (v2 h) none (error e m) rest w a = ground (
    arith,
    from_slice-encode (v2 h) (Payload.encode (error e m) ++ rest) w,
    get_protocol_lem x (v2 h) control (Payload.encode (error e m) ++ rest) (omega arith),
    slice_payload_lem x (v2 h) control none (error e m) (Payload.encode (error e m)) rest
        (length-encode x (v2 h) none (error e m) a) (decode_control_lem x laws e m rest a.2),
  )
  from_slice-parts _ _ _ rest w a = absurd a

  read_tcp_hdr-encode :
      (end : IoErrorKind) (t : TcpHeader) (rest : List ℕ)
      → IsTcpHeader x t
      → x.header_len t ≡ tcp_min_len
      → read_tcp_hdr x end true (x.to_bytes t ++ rest) ≡ ok (some t) rest
  read_tcp_hdr-encode end t rest v l =
      let whole : x.tcp_from_slice (x.to_bytes t) ≡ some (t, []) =
        rw append-nil at (laws.from_slice_to_bytes t [] v) in
      ground (
        arith,
        whole,
        read_exact-append end tcp_min_len (x.to_bytes t) rest (laws.length_to_bytes t ∙ l),
      )

  from_reader-parts :
      (end : IoErrorKind) (h : UsbDevicePacketHeader) (t : Option TcpHeader)
      (pay : UsbDevicePacketPayload) (rest : List ℕ)
      → IsHeader h
      → Agrees x h t pay
      → NoOptions x t
      → from_reader x end (Header.encode h ++ (tcp_hdr_bytes x t ++ (Payload.encode pay ++ rest)))
        ≡ ok (record { header = h; tcp_hdr = t; payload = pay }) rest
  unfolding from_reader
  from_reader-parts end (v1 h) none (version v) rest w a o =
      rw
        (
          from_reader-encode end (v1 h) (encode_version v ++ rest) w,
          from_reader,
          get_protocol_lem x (v1 h) UsbDevicePacketProtocol.version (encode_version v ++ rest)
              (omega arith),
        )
        (read_payload_lem x end (v1 h) UsbDevicePacketProtocol.version none (version v)
          (encode_version v) rest (length-encode x (v1 h) none (version v) a)
          (ground (arith, decode_version_lem x v a.1)))
  from_reader-parts end (v2 h) (some t) (bytes b) rest w a o = ground (
    arith,
    from_reader-encode end (v2 h) (x.to_bytes t ++ (b ++ rest)) w,
    get_protocol_lem x (v2 h) tcp (x.to_bytes t ++ (b ++ rest)) (omega arith),
    read_tcp_hdr-encode end t (b ++ rest) a.2 o,
    read_payload_lem x end (v2 h) tcp (some t) (bytes b) b rest
        (length-encode x (v2 h) (some t) (bytes b) a) refl,
  )
  from_reader-parts end (v2 h) none (bytes b) rest w a o = ground (
    arith,
    from_reader-encode end (v2 h) (b ++ rest) w,
    get_protocol_lem x (v2 h) setup (b ++ rest) (omega arith),
    read_payload_lem x end (v2 h) setup none (bytes b) b rest
        (length-encode x (v2 h) none (bytes b) a) refl,
  )
  from_reader-parts end (v2 h) none (error e m) rest w a o = ground (
    arith,
    from_reader-encode end (v2 h) (Payload.encode (error e m) ++ rest) w,
    get_protocol_lem x (v2 h) control (Payload.encode (error e m) ++ rest) (omega arith),
    read_payload_lem x end (v2 h) control none (error e m) (Payload.encode (error e m)) rest
        (length-encode x (v2 h) none (error e m) a) (decode_control_lem x laws e m rest a.2),
  )
  from_reader-parts end _ _ _ rest w a o = absurd a

  encode-append :
      (p : UsbDevicePacket) (rest : List ℕ)
      → encode x p ++ rest
        ≡ Header.encode p.header
          ++ (tcp_hdr_bytes x p.tcp_hdr ++ (Payload.encode p.payload ++ rest))
  encode-append p rest =
      ap (λ t. t ++ rest) (encode_parts x p)
      ∙ append_assoc (Header.encode p.header) _ rest
      ∙ ap (◌++◌ (Header.encode p.header)) (append_assoc (tcp_hdr_bytes x p.tcp_hdr) _ rest)

  -- A packet whose parts agree is read back from a slice that starts with its bytes, and what stands
  -- behind them is left.
  pub from_slice-encode_packet :
      (p : UsbDevicePacket) (rest : List ℕ)
      → IsPacket x p
      → from_slice x (encode x p ++ rest) ≡ ok p rest
  from_slice-encode_packet p rest w =
      rw (encode-append p rest)
        (from_slice-parts p.header p.tcp_hdr p.payload rest w.header_fits w.agrees)

  -- A packet whose parts agree, and whose TCP header has no options, is read back from a stream that
  -- starts with its bytes, and what stands behind them is left.
  pub from_reader-encode_packet :
      (end : IoErrorKind) (p : UsbDevicePacket) (rest : List ℕ)
      → IsPacket x p
      → NoOptions x p.tcp_hdr
      → from_reader x end (encode x p ++ rest) ≡ ok p rest
  from_reader-encode_packet end p rest w o =
      rw (encode-append p rest)
        (from_reader-parts end p.header p.tcp_hdr p.payload rest w.header_fits w.agrees o)

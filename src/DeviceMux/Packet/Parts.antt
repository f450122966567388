-- ===== src/DeviceMux/Packet/Parts.antt =====
-- parser/device_mux/mod.rs: the packets whose parts agree, what they write, and how the readers take
-- each part.
use rusbmux.Base.{
  ℕ, ◌+◌, ◌-◌, ◌≡◌, ◌<◌, refl, sym, ◌∙◌, ap, true, Option, none, some, List, [], ◌∷◌, ◌++◌, arith,
  length, length-append, append_assoc, append-nil,
}
use rusbmux.Base.Words.{IsU32}
use rusbmux.Base.Parser.{ok, IoErrorKind, advance-append, read_exact-append}
use rusbmux.Extern.{Extern, ExternLaws, TcpHeader, IsTcpHeader}
use rusbmux.DeviceMux.Protocol.{UsbDevicePacketProtocol, control, setup, tcp, is_tcp}
use rusbmux.DeviceMux.Protocol
use rusbmux.DeviceMux.Header
use rusbmux.DeviceMux.Header.{UsbDevicePacketHeader, v1, v2}
use rusbmux.DeviceMux.Header.RoundTrip.{IsHeader}
use rusbmux.DeviceMux.Payload
use rusbmux.DeviceMux.Payload.{
  UsbDevicePacketPayload, UsbDevicePacketVersion, bytes, version, error, decode_version,
  encode_version,
}
use rusbmux.DeviceMux.Packet.{
  UsbDevicePacket, get_payload_len_from_headers, slice_payload, read_payload, encode, encode_into,
  inner_encode_into, tcp_hdr_bytes, total_header_len,
}

module _ (x : Extern) where
  abbrev pub IsVersion : UsbDevicePacketVersion → Type 0
  IsVersion v = IsU32 v.major × IsU32 v.minor × IsU32 v.padding

  -- What a control packet can carry: nothing, a code, or a code and a text that is not empty.
  abbrev pub IsErrorPayload : Option ℕ → Option (List ℕ) → Type 0
  IsErrorPayload none none = Unit
  IsErrorPayload none (some m) = ⊥
  IsErrorPayload (some e) none = Unit
  IsErrorPayload (some e) (some m) = (0 < length m) × (x.valid_utf8 m ≡ true)

  -- The three parts of a packet agree: protocol, TCP header and kind of payload, and the length.
  abbrev pub Agrees : UsbDevicePacketHeader → Option TcpHeader → UsbDevicePacketPayload → Type 0
  Agrees (v1 h) none (version v) = (h.length ≡ 20) × IsVersion v
  Agrees (v2 h) (some t) (bytes b) =
      (h.protocol ≡ 6) × (h.length ≡ 16 + x.header_len t + length b) × IsTcpHeader x t
  Agrees (v2 h) none (bytes b) = (h.protocol ≡ 2) × (h.length ≡ 16 + length b)
  Agrees (v2 h) none (error e m) =
      (h.protocol ≡ 1) × (h.length ≡ 16 + Payload.len (error e m)) × IsErrorPayload e m
  Agrees _ _ _ = ⊥

  pub record IsPacket (p : UsbDevicePacket) : Type 0 where
    pub header_fits : IsHeader p.header
    pub agrees : Agrees p.header p.tcp_hdr p.payload

  encode_payload :
      (pay : UsbDevicePacketPayload) (buf : List ℕ)
      → Payload.encode_into pay buf ≡ buf ++ Payload.encode pay
  encode_payload (bytes b) buf = refl
  encode_payload (version v) buf = refl
  encode_payload (error none m) buf = sym (append-nil buf)
  encode_payload (error (some e) none) buf = refl
  encode_payload (error (some e) (some m)) buf = append_assoc buf (e ∷ []) m

  -- What a packet writes: its header, its TCP header and its payload, in this order.
  pub encode_parts :
      (p : UsbDevicePacket)
      → encode x p
        ≡ Header.encode p.header ++ (tcp_hdr_bytes x p.tcp_hdr ++ Payload.encode p.payload)
  unfolding encode inner_encode_into
  encode_parts p = encode_payload p.payload _ ∙ append_assoc (Header.encode p.header) _ _

  -- Writing into a buffer appends what `encode` returns.
  pub encode_into-encode :
      (p : UsbDevicePacket) (buf : List ℕ) → encode_into x p buf ≡ buf ++ encode x p
  unfolding encode_into inner_encode_into
  encode_into-encode p buf =
      encode_payload p.payload _
      ∙ ap (λ t. t ++ Payload.encode p.payload) (append_assoc buf (Header.encode p.header) _)
      ∙ append_assoc buf _ _
      ∙ ap (◌++◌ buf) (append_assoc (Header.encode p.header) _ _ ∙ sym (encode_parts p))

  pub slice_payload_lem :
      (h : UsbDevicePacketHeader) (protocol : UsbDevicePacketProtocol) (t : Option TcpHeader)
      (pay : UsbDevicePacketPayload) (bs rest : List ℕ)
      → Header.get_length h ≡ total_header_len x h t + length bs
      → Payload.decode x bs protocol rest ≡ ok pay rest
      → slice_payload x h protocol t (bs ++ rest)
        ≡ ok (record { header = h; tcp_hdr = t; payload = pay }) rest
  unfolding slice_payload
  slice_payload_lem h protocol t pay bs rest l d = ground (
    arith,
    length-append bs rest,
    advance-append (Header.get_length h - total_header_len x h t) bs rest (omega arith),
  )

  pub read_payload_lem :
      (end : IoErrorKind) (h : UsbDevicePacketHeader) (protocol : UsbDevicePacketProtocol)
      (t : Option TcpHeader) (pay : UsbDevicePacketPayload) (bs rest : List ℕ)
      → Header.get_length h ≡ total_header_len x h t + length bs
      → Payload.decode x bs protocol rest ≡ ok pay rest
      → read_payload x end h protocol t (bs ++ rest)
        ≡ ok (record { header = h; tcp_hdr = t; payload = pay }) rest
  unfolding read_payload
  read_payload_lem end h protocol t pay bs rest l d = ground (
    arith,
    read_exact-append end (Header.get_length h - total_header_len x h t) bs rest (omega arith),
  )

  pub length-encode :
      (h : UsbDevicePacketHeader) (t : Option TcpHeader) (pay : UsbDevicePacketPayload)
      → Agrees h t pay
      → Header.get_length h ≡ total_header_len x h t + length (Payload.encode pay)
  length-encode (v1 h) none (version v) a = omega arith
  length-encode (v2 h) (some t) (bytes b) a = omega arith
  length-encode (v2 h) none (bytes b) a = omega arith
  length-encode (v2 h) none (error none none) a = omega arith
  length-encode (v2 h) none (error none (some m)) a = absurd a.2
  length-encode (v2 h) none (error (some e) none) a = omega arith
  length-encode (v2 h) none (error (some e) (some m)) a = omega arith
  length-encode _ _ _ a = absurd a

  decode_control_text :
      ExternLaws x
      → (e : ℕ) (m s : List ℕ) → 0 < length m
      → x.valid_utf8 m ≡ true
      → Payload.decode x (e ∷ m) control s ≡ ok (error (some e) (some m)) s
  decode_control_text laws e [] s h u = absurd (omega arith)
  decode_control_text laws e (c ∷ m) s h u = rw (laws.from_utf8_lossy_valid (c ∷ m) u)

  pub decode_control_lem :
      ExternLaws x
      → (e : Option ℕ) (m : Option (List ℕ)) (s : List ℕ) → IsErrorPayload e m
      → Payload.decode x (Payload.encode (error e m)) control s ≡ ok (error e m) s
  decode_control_lem laws none none s w = refl
  decode_control_lem laws none (some m) s w = absurd w
  decode_control_lem laws (some e) none s w = refl
  decode_control_lem laws (some e) (some m) s w = decode_control_text laws e m s w.0 w.1

  pub decode_version_lem :
      (v : UsbDevicePacketVersion) → IsVersion v → decode_version (encode_version v) ≡ some v
  unfolding decode_version
  decode_version_lem v (a, b, c) = ground arith

  pub get_protocol_lem :
      (h : UsbDevicePacketHeader) (p : UsbDevicePacketProtocol) (s : List ℕ)
      → Header.raw_protocol h ≡ Protocol.to_u32 p
      → Header.get_protocol h s ≡ ok p s
  unfolding Header.get_protocol Protocol.from_u32_unchecked
  get_protocol_lem h p s e = ground (arith, Protocol.try_from-to_u32 p)

  -- The length that a well-formed packet's headers leave is that of its payload, so that computing it
  -- does not overflow.
  pub payload_len_from_headers :
      (p : UsbDevicePacket)
      → IsPacket p
      → get_payload_len_from_headers x p ≡ some (length (Payload.encode p.payload))
  unfolding get_payload_len_from_headers
  payload_len_from_headers p w = ground (arith, length-encode p.header p.tcp_hdr p.payload w.agrees)

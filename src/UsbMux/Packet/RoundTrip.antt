-- ===== src/UsbMux/Packet/RoundTrip.antt =====
-- parser/usbmux.rs: what a client reads of a packet that the daemon wrote.
use rusbmux.Base.{ℕ, ◌+◌, ◌≡◌, ◌<◌, ◌^◌, refl, some, List, ◌++◌, arith, length, append_assoc}
use rusbmux.Base.Words.{IsU32, as_u32}
use rusbmux.Base.Parser.{ok, IoErrorKind, continue, read_exact-append}
use rusbmux.UsbMux.Kinds.{
  UsbMuxVersion, UsbMuxMsgType, version_number, msg_type_number, version_try_from-version_number,
  msg_type_try_from-msg_type_number,
}
use rusbmux.UsbMux.Header
use rusbmux.UsbMux.Header.{UsbMuxHeader, RawUsbMuxHeader, raw_bytes, pod_read}
use rusbmux.UsbMux.Packet.{
  PlistCodec, UsbMuxPayload, UsbMuxPacket, value, raw, encode_payload, decode_payload, encode,
  encode_from, from_reader, checked_sub,
}

pod_read-raw_bytes :
    (r : RawUsbMuxHeader)
    → IsU32 r.len
    → IsU32 r.version
    → IsU32 r.msg_type
    → IsU32 r.tag
    → pod_read (raw_bytes r) ≡ r
pod_read-raw_bytes r a b c d = ground arith

version_number-IsU32 : (v : UsbMuxVersion) → IsU32 (version_number v)
version_number-IsU32 UsbMuxVersion.binary = omega arith
version_number-IsU32 UsbMuxVersion.plist = omega arith

msg_type_number-IsU32 : (m : UsbMuxMsgType) → IsU32 (msg_type_number m)
msg_type_number-IsU32 UsbMuxMsgType.result = omega arith
msg_type_number-IsU32 _ = omega arith

-- A header whose length and tag fit a u32 is read back from a stream that starts with its sixteen
-- bytes, and what stands behind them is left.
pub header_from_reader-encode :
    (end : IoErrorKind) (h : UsbMuxHeader) (rest : List ℕ)
    → IsU32 h.len
    → IsU32 h.tag
    → Header.from_reader end (Header.encode h ++ rest) ≡ ok h rest
unfolding Header.from_reader
header_from_reader-encode end h rest l t =
    let r : RawUsbMuxHeader = record {
      len = h.len;
      version = version_number h.version;
      msg_type = msg_type_number h.msg_type;
      tag = h.tag;
    } in
    let back =
      pod_read-raw_bytes r l (version_number-IsU32 h.version) (msg_type_number-IsU32 h.msg_type)
        t in
    ground (
      arith,
      read_exact-append end 16 (Header.encode h) rest refl,
      back,
      version_try_from-version_number h.version,
      msg_type_try_from-msg_type_number h.msg_type,
    )

module _ {Value : Type 0} (c : PlistCodec Value) where
  -- A header, then the bytes that it counts: what is read is those bytes, decoded by its version.
  from_reader-bytes :
      (end : IoErrorKind) (h : UsbMuxHeader) (payload rest : List ℕ)
      → h.len ≡ length payload + 16
      → IsU32 h.len
      → IsU32 h.tag
      → from_reader c end (Header.encode h ++ (payload ++ rest))
        ≡ continue
            (decode_payload c h.version payload rest)
            (λ p. ok (record { header = h; payload = p }))
  unfolding from_reader
  from_reader-bytes end h payload rest l u t =
      rw (header_from_reader-encode end h (payload ++ rest) u t, from_reader, checked h payload l)
        (rw (read_exact-append end (length payload) payload rest refl))
    where
      checked :
          (h : UsbMuxHeader) (payload : List ℕ)
          → h.len ≡ length payload + 16
          → checked_sub h.len 16 ≡ some (length payload)
      checked h payload l = ground arith

  -- A packet made by `encode_from` is read back: the header holds the length, version, type and tag
  -- given, and the payload is what its version's decoder makes of the bytes given, whether that is a
  -- value or an error; what stands behind the packet is left. The length has to fit a u32.
  pub from_reader-encode_from :
      (end : IoErrorKind) (payload : List ℕ) (version : UsbMuxVersion) (msg_type : UsbMuxMsgType)
      (tag : ℕ) (rest : List ℕ)
      → length payload + 16 < 2 ^ 32
      → IsU32 tag
      → from_reader c end (encode_from c payload version msg_type tag ++ rest)
        ≡ continue (decode_payload c version payload rest) (λ p. ok (record {
          header = record {
            len = length payload + 16;
            version = version;
            msg_type = msg_type;
            tag = tag;
          };
          payload = p;
        }))
  unfolding encode_from
  from_reader-encode_from end payload version msg_type tag rest l t =
      let h : UsbMuxHeader = record {
        len = length payload + 16;
        version = version;
        msg_type = msg_type;
        tag = tag;
      } in
      let same : as_u32 (length payload + 16) ≡ length payload + 16 = omega arith in
      rw (same, append_assoc (Header.encode h) payload rest)
        (from_reader-bytes end h payload rest refl l t)

  -- The version of the header says what the payload is.
  abbrev pub Matches : UsbMuxVersion → UsbMuxPayload Value → Type 0
  Matches UsbMuxVersion.plist (value v) = Unit
  Matches UsbMuxVersion.binary (raw b) = Unit
  Matches _ _ = ⊥

  decode_payload-encode_payload :
      ((v : Value) → c.from_bytes (c.to_xml_bytes v) ≡ some v)
      → (version : UsbMuxVersion) (p : UsbMuxPayload Value) (s : List ℕ) → Matches version p
      → decode_payload c version (encode_payload c p) s ≡ ok p s
  decode_payload-encode_payload back UsbMuxVersion.plist (value v) s m = rw (back v)
  decode_payload-encode_payload back UsbMuxVersion.binary (raw b) s m = refl
  decode_payload-encode_payload back _ _ s m = absurd m

  -- Where the plist crate reads back the XML that it writes, a packet whose version matches its
  -- payload and whose length and tag fit a u32, the length being right, is read back from what `encode` writes.
  pub client_packet_round_trip :
      ((v : Value) → c.from_bytes (c.to_xml_bytes v) ≡ some v)
      → (end : IoErrorKind) (p : UsbMuxPacket Value) (rest : List ℕ)
      → Matches p.header.version p.payload
      → p.header.len ≡ length (encode_payload c p.payload) + 16
      → IsU32 p.header.len
      → IsU32 p.header.tag
      → from_reader c end (encode c p ++ rest) ≡ ok p rest
  unfolding encode
  client_packet_round_trip back end p rest m l u t = rw (
    append_assoc (Header.encode p.header) (encode_payload c p.payload) rest,
    from_reader-bytes end p.header (encode_payload c p.payload) rest l u t,
    decode_payload-encode_payload back p.header.version p.payload rest m,
  )

-- ===== src/UsbMux/Packet.antt =====
-- parser/usbmux.rs: `UsbMuxPacket` and `UsbMuxPayload`. The plist values and their XML are those of
-- the crate plist, which are parameters.
pub mod RoundTrip
pub mod Reading
use rusbmux.Base.{ℕ, ◌+◌, ◌-◌, ◌≡◌, Option, none, some, List, ◌++◌, length, leb, if◌then◌else◌}
use rusbmux.Base.Words.{as_u32}
use rusbmux.Base.Parser.{
  Parser, Reply, ok, err, IoErrorKind, invalid_data, plist, ◌>>=◌, return, read_exact,
}
use rusbmux.UsbMux.Kinds.{UsbMuxVersion, UsbMuxMsgType}
use rusbmux.UsbMux.Header
use rusbmux.UsbMux.Header.{UsbMuxHeader, header_size, or_invalid}

-- `u32::checked_sub`
abbrev pub checked_sub : ℕ → ℕ → Option ℕ
checked_sub a b = if leb b a then some (a - b) else none

-- What is used of the crate plist: a value as XML bytes, and the value of a document.
pub record PlistCodec (Value : Type 0) : Type 0 where
  pub to_xml_bytes : Value → List ℕ
  pub from_bytes : List ℕ → Option Value

pub data UsbMuxPayload (Value : Type 0) : Type 0 where
  value : Value → UsbMuxPayload Value
  raw : List ℕ → UsbMuxPayload Value

pub record UsbMuxPacket (Value : Type 0) : Type 0 where
  pub header : UsbMuxHeader
  pub payload : UsbMuxPayload Value

module _ {Value : Type 0} where
  abbrev pub as_plist : UsbMuxPayload Value → Option Value
  as_plist (value p) = some p
  as_plist (raw b) = none

  abbrev pub as_binary : UsbMuxPayload Value → Option (List ℕ)
  as_binary (value p) = none
  as_binary (raw b) = some b

module _ {Value : Type 0} (c : PlistCodec Value) where
  abbrev pub encode_payload : UsbMuxPayload Value → List ℕ
  encode_payload (value p) = c.to_xml_bytes p
  encode_payload (raw b) = b

  abbrev pub value_or_error : Option Value → Parser (UsbMuxPayload Value)
  value_or_error none s = err plist s
  value_or_error (some v) s = ok (value v) s

  abbrev pub decode_payload : UsbMuxVersion → List ℕ → Parser (UsbMuxPayload Value)
  decode_payload UsbMuxVersion.plist payload s = value_or_error (c.from_bytes payload) s
  decode_payload UsbMuxVersion.binary payload s = ok (raw payload) s

  pub encode : UsbMuxPacket Value → List ℕ
  encode p = Header.encode p.header ++ encode_payload p.payload

  unfoldable pub encode_from : List ℕ → UsbMuxVersion → UsbMuxMsgType → ℕ → List ℕ
  unfolding encode
  encode_from payload version msg_type tag = encode (record {
    header = record {
      len = as_u32 (length payload + header_size);
      version = version;
      msg_type = msg_type;
      tag = tag;
    };
    payload = raw payload;
  })

  unfoldable pub from_reader : IoErrorKind → Parser (UsbMuxPacket Value)
  from_reader end = do
    header ← Header.from_reader end
    payload_len ← or_invalid (checked_sub header.len header_size)
    payload ← read_exact end payload_len
    usbmux_payload ← decode_payload header.version payload
    return (record { header = header; payload = usbmux_payload })

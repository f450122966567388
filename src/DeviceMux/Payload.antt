-- ===== src/DeviceMux/Payload.antt =====
-- parser/device_mux/mod.rs: `UsbDevicePacketPayload` and `UsbDevicePacketVersion`. A `String` is the
-- list of its UTF-8 bytes.
use rusbmux.Base.{
  ℕ, ◌+◌, Bool, Option, none, some, List, [], ◌∷◌, ◌++◌, length, ◌==◌, if◌then◌else◌,
}
use rusbmux.Base.Words.{be32, be32_at}
use rusbmux.Base.Parser.{Parser, ok, panic}
use rusbmux.Extern.{Extern}
use rusbmux.DeviceMux.Protocol.{UsbDevicePacketProtocol}

pub record UsbDevicePacketVersion : Type 0 where
  pub major : ℕ
  pub minor : ℕ
  pub padding : ℕ

-- `size_of` of that `repr(C)` struct.
abbrev pub version_size : ℕ
version_size = 12

-- `bytemuck::from_bytes` panics on a slice of another length: `none`.
unfoldable pub decode_version : List ℕ → Option UsbDevicePacketVersion
decode_version bs =
    if length bs == version_size
    then some (record { major = be32_at bs 0; minor = be32_at bs 4; padding = be32_at bs 8 })
    else none

abbrev pub encode_version : UsbDevicePacketVersion → List ℕ
encode_version v = be32 v.major (be32 v.minor (be32 v.padding []))

pub data UsbDevicePacketPayload : Type 0 where
  bytes : List ℕ → UsbDevicePacketPayload
  version : UsbDevicePacketVersion → UsbDevicePacketPayload
  error : Option ℕ → Option (List ℕ) → UsbDevicePacketPayload

abbrev pub len : UsbDevicePacketPayload → ℕ
len (bytes b) = length b
len (version v) = version_size
len (error (some e) (some m)) = length m + 1
len (error (some e) none) = 1
len (error none m) = 0

abbrev pub is_empty : UsbDevicePacketPayload → Bool
is_empty p = len p == 0

abbrev pub decode_control : Extern → List ℕ → UsbDevicePacketPayload
decode_control x [] = error none none
decode_control x (e ∷ []) = error (some e) none
decode_control x (e ∷ m ∷ ms) = error (some e) (some (x.from_utf8_lossy (m ∷ ms)))

abbrev pub decode : Extern → List ℕ → UsbDevicePacketProtocol → Parser UsbDevicePacketPayload
decode x payload UsbDevicePacketProtocol.version s = elim (decode_version payload) [
  | none ↦ panic
  | some v ↦ ok (version v) s
]
decode x payload UsbDevicePacketProtocol.control s = ok (decode_control x payload) s
decode x payload UsbDevicePacketProtocol.setup s = ok (bytes payload) s
decode x payload UsbDevicePacketProtocol.tcp s = ok (bytes payload) s

abbrev pub encode_into : UsbDevicePacketPayload → List ℕ → List ℕ
encode_into (bytes b) buf = buf ++ b
encode_into (version v) buf = buf ++ encode_version v
encode_into (error none m) buf = buf
encode_into (error (some e) none) buf = buf ++ e ∷ []
encode_into (error (some e) (some m)) buf = (buf ++ e ∷ []) ++ m

abbrev pub encode : UsbDevicePacketPayload → List ℕ
encode (bytes b) = b
encode (version v) = encode_version v
encode (error none m) = []
encode (error (some e) none) = e ∷ []
encode (error (some e) (some m)) = (e ∷ []) ++ m

abbrev pub as_bytes : UsbDevicePacketPayload → Option (List ℕ)
as_bytes (bytes b) = some b
as_bytes _ = none

abbrev pub as_version : UsbDevicePacketPayload → Option UsbDevicePacketVersion
as_version (version v) = some v
as_version _ = none

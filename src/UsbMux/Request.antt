-- ===== src/UsbMux/Request.antt =====
-- parser/usbmux.rs: the requests of a client. Their parsing from a plist is derived by serde; the
-- port number has a parser of its own, which is here.
use Prim.Native.String.{String}
use rusbmux.Base.{ℕ, ◌-◌, ◌≡◌, ◌^◌, ◌%◌, Option, none, some, List, arith, ltb, if◌then◌else◌}
use rusbmux.Base.Words.{as_u16, to_be16, IsU16}

pub record UsbMuxCommon : Type 0 where
  pub bundle_id : Option String
  pub client_version_string : Option String
  pub conn_type : Option ℕ
  pub process_id : Option ℕ
  pub prog_name : Option String
  pub libusbmux_version : Option ℕ

pub data UsbMuxRequest : Type 0 where
  listen : UsbMuxCommon → UsbMuxRequest
  list_devices : UsbMuxCommon → UsbMuxRequest
  list_listeners : UsbMuxCommon → UsbMuxRequest
  read_buid : UsbMuxCommon → UsbMuxRequest
  -- the pair record's id
  read_pair_record : UsbMuxCommon → List ℕ → UsbMuxRequest
  -- the pair record's id and data, and the device's id
  save_pair_record : UsbMuxCommon → List ℕ → List ℕ → Option ℕ → UsbMuxRequest
  delete_pair_record : UsbMuxCommon → List ℕ → UsbMuxRequest
  -- the device's id and the port
  connect : UsbMuxCommon → ℕ → ℕ → UsbMuxRequest

-- A signed number, as `plist` returns it: `negsuc n` is -(n + 1).
pub data ℤ : Type 0 where
  pos : ℕ → ℤ
  negsuc : ℕ → ℤ

-- `si as u16`
abbrev pub signed_as_u16 : ℤ → ℕ
signed_as_u16 (pos n) = as_u16 n
signed_as_u16 (negsuc n) = 2 ^ 16 - 1 - n % 2 ^ 16

-- From what `as_unsigned_integer` and `as_signed_integer` make of the value. `to_be` swaps the bytes
-- on a little-endian host.
pub deserialize_port_number : Option ℕ → Option ℤ → Option ℕ
deserialize_port_number (some ui) si = some (to_be16 (as_u16 ui))
deserialize_port_number none (some si) = some (to_be16 (signed_as_u16 si))
deserialize_port_number none none = none

-- `x as i16`, as a signed number.
abbrev pub as_i16 : ℕ → ℤ
as_i16 x = if ltb (as_u16 x) (2 ^ 15) then pos (as_u16 x) else negsuc (2 ^ 16 - 1 - as_u16 x)

-- A client sends its port in network byte order, unsigned or as a signed 16-bit number; both give
-- the port back.
pub port_number_round_trip :
    (port : ℕ) (si : Option ℤ)
    → IsU16 port
    → (deserialize_port_number (some (to_be16 port)) si ≡ some port)
      × (deserialize_port_number none (some (as_i16 (to_be16 port))) ≡ some port)
unfolding deserialize_port_number
port_number_round_trip port si h = (ground arith, ground arith)

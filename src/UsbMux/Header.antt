-- ===== src/UsbMux/Header.antt =====
-- parser/usbmux.rs: `UsbMuxHeader`. The four numbers lie in the host's byte order, which is
-- little-endian here.
use rusbmux.Base.{ℕ, Option, none, some, List, []}
use rusbmux.Base.Words.{le32, le32_at}
use rusbmux.Base.Parser.{Parser, ok, err, IoErrorKind, invalid_data, ◌>>=◌, return, read_exact}
use rusbmux.UsbMux.Kinds.{
  UsbMuxVersion, UsbMuxMsgType, version_number, version_try_from, msg_type_number,
  msg_type_try_from,
}

pub record RawUsbMuxHeader : Type 0 where
  pub len : ℕ
  pub version : ℕ
  pub msg_type : ℕ
  pub tag : ℕ

pub record UsbMuxHeader : Type 0 where
  pub len : ℕ
  pub version : UsbMuxVersion
  pub msg_type : UsbMuxMsgType
  pub tag : ℕ

-- `size_of::<RawUsbMuxHeader>()`
abbrev pub header_size : ℕ
header_size = 16

abbrev pub raw_bytes : RawUsbMuxHeader → List ℕ
raw_bytes raw = le32 raw.len (le32 raw.version (le32 raw.msg_type (le32 raw.tag [])))

abbrev pub encode : UsbMuxHeader → List ℕ
encode h = raw_bytes (record {
  len = h.len;
  version = version_number h.version;
  msg_type = msg_type_number h.msg_type;
  tag = h.tag;
})

abbrev pub pod_read : List ℕ → RawUsbMuxHeader
pod_read bs = record {
  len = le32_at bs 0;
  version = le32_at bs 4;
  msg_type = le32_at bs 8;
  tag = le32_at bs 12;
}

abbrev pub or_invalid : {A : Type 0} → Option A → Parser A
or_invalid none s = err invalid_data s
or_invalid (some a) s = ok a s

unfoldable pub from_reader : IoErrorKind → Parser UsbMuxHeader
from_reader end = do
  buf ← read_exact end header_size
  let raw = pod_read buf
  version ← or_invalid (version_try_from raw.version)
  msg_type ← or_invalid (msg_type_try_from raw.msg_type)
  return (record { len = raw.len; version = version; msg_type = msg_type; tag = raw.tag })

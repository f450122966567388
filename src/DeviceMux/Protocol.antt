-- ===== src/DeviceMux/Protocol.antt =====
-- parser/device_mux/mod.rs: `UsbDevicePacketProtocol`.
use rusbmux.Base.{
  ℕ, ◌≡◌, refl, Bool, true, false, Option, none, some, List, [], arith, ◌==◌, if◌then◌else◌,
}
use rusbmux.Base.Words.{be32, be32_at}
use rusbmux.Base.Parser.{Parser, ok, err, undefined, invalid_data}

pub data UsbDevicePacketProtocol : Type 0 where
  version control setup tcp : UsbDevicePacketProtocol

-- `self as u32`
abbrev pub to_u32 : UsbDevicePacketProtocol → ℕ
to_u32 version = 0
to_u32 control = 1
to_u32 setup = 2
to_u32 tcp = 6

abbrev pub is_tcp : UsbDevicePacketProtocol → Bool
is_tcp tcp = true
is_tcp _ = false

pub encode : UsbDevicePacketProtocol → List ℕ
encode p = be32 (to_u32 p) []

-- `TryFrom<u32>`: the variant of a number.
unfoldable pub try_from : ℕ → Option UsbDevicePacketProtocol
try_from v =
    if v == 0
    then some version
    else if v == 1
    then some control
    else if v == 2
    then some setup
    else if v == 6
    then some tcp
    else none

-- Four big-endian bytes.
unfoldable pub new : List ℕ → Parser UsbDevicePacketProtocol
new v s = elim (try_from (be32_at v 0)) [ none ↦ err invalid_data s | some p ↦ ok p s ]

-- The transmute of a number that no variant has is undefined behaviour.
unfoldable pub from_u32_unchecked : ℕ → Parser UsbDevicePacketProtocol
from_u32_unchecked v s = elim (try_from v) [ none ↦ undefined | some p ↦ ok p s ]

pub try_from-to_u32 : (p : UsbDevicePacketProtocol) → try_from (to_u32 p) ≡ some p
unfolding try_from
try_from-to_u32 version = refl
try_from-to_u32 control = refl
try_from-to_u32 setup = refl
try_from-to_u32 tcp = refl

pub to_u32-try_from : (v : ℕ) (p : UsbDevicePacketProtocol) → try_from v ≡ some p → to_u32 p ≡ v
unfolding try_from
to_u32-try_from v p h = ground arith

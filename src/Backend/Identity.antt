-- ===== src/Backend/Identity.antt =====
-- The identifiers of a device tell the devices on the buses apart.
use rusbmux.Base.{◌≡◌, arith}
use rusbmux.Base.Words.{IsU8, IsU32}
use rusbmux.Backend.{DeviceInfo, rusb, location_id, opaque_id}

abbrev pub OnBus : DeviceInfo → Type 0
OnBus i = IsU8 i.bus × IsU8 i.address

-- Two devices with the same location, or, with rusb, the same opaque id, have the same bus and address; a location fits
-- a u32.
pub location_id-injective :
    (a b : DeviceInfo)
    → OnBus a
    → OnBus b
    → ((location_id (rusb a) ≡ location_id (rusb b)) → (a.bus ≡ b.bus) × (a.address ≡ b.address))
      × ((opaque_id (rusb a) ≡ opaque_id (rusb b)) → (a.bus ≡ b.bus) × (a.address ≡ b.address))
      × IsU32 (location_id (rusb a))
unfolding location_id opaque_id
location_id-injective a b (p, q) (r, s) =
    (λ h. (omega arith, omega arith), λ h. (omega arith, omega arith), omega arith)

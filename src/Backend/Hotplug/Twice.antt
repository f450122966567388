-- ===== src/Backend/Hotplug/Twice.antt =====
-- usb_backend/nusb.rs: a device that is plugged in between the start of the watch and the listing.
use rusbmux.Base.{true, ◌≡◌, ◌+◌, ◌^◌, ◌<◌, refl, some, [], ◌∷◌, arith, ◌==◌, ◌%◌, ==_refl}
use rusbmux.Base.Map.{insert, get-insert}
use rusbmux.Backend.{DeviceInfo, nusb, opaque_id, apple_vid}
use rusbmux.Backend.Hotplug.{
  connected, disconnected, plugged, unplugged, Ids, list_devices, nusb_list_devices, watch_usb,
  arrive, leave, watch_nusb,
}

-- A device that is plugged in after the watch has begun and before the devices are listed is reported under
-- two ids, and when it leaves only the second one is reported as disconnected.
pub watch_usb_twice :
    (d : DeviceInfo) (s : Ids)
    → d.vendor_id ≡ apple_vid
    → s.counter + 1 < 2 ^ 64
    → (watch_usb (some (d ∷ [])) (plugged d ∷ unplugged d.hash_id ∷ []) s).1
      ≡ connected (nusb d) s.counter
        ∷ connected (nusb d) (s.counter + 1)
        ∷ disconnected (s.counter + 1)
        ∷ []
unfolding watch_usb nusb_list_devices list_devices watch_nusb arrive leave opaque_id
watch_usb_twice d s apple small =
    let is_apple : (d.vendor_id == apple_vid) ≡ true = ground arith in
    let next : (s.counter + 1) % 2 ^ 64 ≡ s.counter + 1 = omega arith in
    rw (is_apple, next)
      (rw
        (
          get-insert d.hash_id d.hash_id (s.counter + 1)
              (insert d.hash_id s.counter s.devices_id_map),
          ==_refl d.hash_id,
        )
        refl)

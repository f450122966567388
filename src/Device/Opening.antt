-- ===== src/Device/Opening.antt =====
-- device/usb.rs: `UsbDevice::new`, up to the device it makes. The exchange with the device is a version
-- packet each way and a setup packet; the endpoints are those of the loops.
pub mod Exchange
use rusbmux.Base.{ℕ, zero, suc, Bool, true, false, Option, none, some, List, [], ◌∷◌}
use rusbmux.Base.Parser.{Reply, ok, err, panic, undefined, Parser, ParseError, IoErrorKind, io}
use rusbmux.Error
use rusbmux.Error.{Result}
use rusbmux.Extern.{Extern}
use rusbmux.DeviceMux.Payload.{UsbDevicePacketVersion, as_version}
use rusbmux.DeviceMux.Packet.{UsbDevicePacket, from_reader, encode}
use rusbmux.DeviceMux.Builder.{
  builder, header_version, payload_version, build_version, header_setup, payload_bytes, build_setup,
}
use rusbmux.Backend.{AnyDeviceInfo}
use rusbmux.Device.{UsbDevice, opened}
use rusbmux.Device.Writer.{Action, Endpoint, write_all, flush}

unfoldable pub version_packet : UsbDevicePacket
version_packet = build_version (payload_version (header_version builder) 2 0)

unfoldable pub setup_packet : UsbDevicePacket
setup_packet = build_setup (payload_bytes (header_setup builder) (7 ∷ []))

-- What a packet comes to while the version is waited for: the version, or one more round.
abbrev pub version_or :
    Option UsbDevicePacketVersion
    → List ℕ
    → (List ℕ → Option (Reply UsbDevicePacketVersion))
    → Option (Reply UsbDevicePacketVersion)
version_or (some v) rest again = some (ok v rest)
version_or none rest again = again rest

abbrev pub version_round :
    Reply UsbDevicePacket
    → (List ℕ → Option (Reply UsbDevicePacketVersion))
    → Option (Reply UsbDevicePacketVersion)
version_round (ok packet rest) again = version_or (as_version packet.payload) rest again
version_round (err e rest) again = some (err e rest)
version_round panic again = some panic
version_round undefined again = some undefined

-- The loop that drops the packets before the version packet; `none` where the fuel has run out.
pub version_loop : Extern → IoErrorKind → ℕ → List ℕ → Option (Reply UsbDevicePacketVersion)
version_loop x end zero s = none
version_loop x end (suc n) s = version_round (from_reader x end s) λ rest. version_loop x end n rest

-- `write_all` and then `flush`, each of which returns on an error.
abbrev pub and_flush : Endpoint × Bool → Endpoint × Bool
and_flush (e, false) = (e, false)
and_flush (e, true) = flush e

abbrev pub write_flushed : List ℕ → Endpoint → Endpoint × Bool
write_flushed bs e = and_flush (write_all bs e)

-- An endpoint that fails a write or a flush does so with the error `end`, like a read. What the device has
-- sent, `answers`, depends on what has been done with the endpoint before it is read.
module _ (x : Extern) (end : IoErrorKind) (id : ℕ) (info : AnyDeviceInfo) where
  abbrev pub after_setup :
      UsbDevicePacketVersion → List ℕ → Endpoint × Bool → Endpoint × Reply UsbDevice
  after_setup v rest (e, false) = (e, err (io end) rest)
  after_setup v rest (e, true) = (e, ok (opened id info v) rest)

  abbrev pub after_version :
      Endpoint → Option (Reply UsbDevicePacketVersion) → Option (Endpoint × Reply UsbDevice)
  after_version e none = none
  after_version e (some (ok v rest)) =
      some (after_setup v rest (write_flushed (encode x setup_packet) e))
  after_version e (some (err c rest)) = some (e, err c rest)
  after_version e (some panic) = some (e, panic)
  after_version e (some undefined) = some (e, undefined)

  abbrev pub after_hello :
      ℕ → (List Action → List ℕ) → Endpoint × Bool → Option (Endpoint × Reply UsbDevice)
  after_hello n answers (e, false) = some (e, err (io end) (answers e.log))
  after_hello n answers (e, true) = after_version e (version_loop x end n (answers e.log))

  unfoldable pub new_device :
      ℕ → (List Action → List ℕ) → Endpoint → Option (Endpoint × Reply UsbDevice)
  new_device n answers e = after_hello n answers (write_flushed (encode x version_packet) e)

-- `new_from`: the device of a version that is already known, once it is open and its endpoints are.
unfoldable pub new_from :
    {Ends : Type 0} → Result Ends → AnyDeviceInfo → ℕ → UsbDevicePacketVersion → Result UsbDevice
new_from (Error.err e) info id version = Error.err e
new_from (Error.ok ends) info id version = Error.ok (opened id info version)

-- ===== src/Backend/Endpoints.antt =====
-- usb_backend/mod.rs: the reader and the writer of a device, of either crate. Those of nusb are parameters.
use rusbmux.Base.{ℕ, Bool, List}
use rusbmux.Backend.Rusb.{Poll, Completion}
use rusbmux.Backend.Rusb.Reader
use rusbmux.Backend.Rusb.Reader.{RusbAsyncReader}
use rusbmux.Backend.Rusb.Writer
use rusbmux.Backend.Rusb.Writer.{RusbAsyncWriter}

pub data AnyEndpointReader (NusbReader : Type 0) : Type 0 where
  nusb : NusbReader → AnyEndpointReader NusbReader
  rusb : RusbAsyncReader → AnyEndpointReader NusbReader

pub data AnyEndpointWriter (NusbWriter : Type 0) : Type 0 where
  nusb : NusbWriter → AnyEndpointWriter NusbWriter
  rusb : RusbAsyncWriter → AnyEndpointWriter NusbWriter

-- What the crate nusb does: a read into a buffer with room for some bytes, a write, a flush, a shutdown, and the
-- end of a transfer.
pub record NusbEndpoints (NusbReader NusbWriter : Type 0) : Type 0 where
  pub poll_read : ℕ → NusbReader → NusbReader × List ℕ × Poll (Unit {0})
  pub poll_write : List ℕ → NusbWriter → NusbWriter × Poll ℕ
  pub poll_flush : NusbWriter → NusbWriter × Poll (Unit {0})
  pub poll_shutdown : NusbWriter → NusbWriter × Poll (Unit {0})
  pub submit_end : NusbWriter → NusbWriter

-- `submits` says whether libusb takes a transfer, and the completion is what it comes to.
module _ {R W : Type 0} (n : NusbEndpoints R W) where
  abbrev nusb_read : R × List ℕ × Poll (Unit {0}) → AnyEndpointReader R × List ℕ × Poll (Unit {0})
  nusb_read (r, bytes, answer) = (AnyEndpointReader.nusb r, bytes, answer)

  unfoldable pub poll_read :
      Bool → Completion → ℕ → AnyEndpointReader R → AnyEndpointReader R × List ℕ × Poll (Unit {0})
  unfolding Reader.poll_read
  poll_read submits completion remaining (AnyEndpointReader.nusb r) =
      nusb_read (n.poll_read remaining r)
  poll_read submits completion remaining (AnyEndpointReader.rusb r) =
      let polled = Reader.poll_read submits completion remaining r in
      (AnyEndpointReader.rusb polled.reader, polled.bytes, polled.answer)

  abbrev of_nusb : {A : Type 0} → W × A → AnyEndpointWriter W × A
  of_nusb (w, a) = (AnyEndpointWriter.nusb w, a)

  abbrev of_rusb : {A : Type 0} → RusbAsyncWriter × A → AnyEndpointWriter W × A
  of_rusb (w, a) = (AnyEndpointWriter.rusb w, a)

  unfoldable pub poll_write :
      Bool → Completion → List ℕ → AnyEndpointWriter W → AnyEndpointWriter W × Poll ℕ
  unfolding Writer.poll_write
  poll_write submits completion bytes (AnyEndpointWriter.nusb w) = of_nusb (n.poll_write bytes w)
  poll_write submits completion bytes (AnyEndpointWriter.rusb w) =
      of_rusb (Writer.poll_write submits completion bytes w)

  unfoldable pub poll_flush :
      Bool → Completion → AnyEndpointWriter W → AnyEndpointWriter W × Poll (Unit {0})
  unfolding Writer.poll_flush
  poll_flush submits completion (AnyEndpointWriter.nusb w) = of_nusb (n.poll_flush w)
  poll_flush submits completion (AnyEndpointWriter.rusb w) =
      of_rusb (Writer.poll_flush submits completion w)

  unfoldable pub poll_shutdown :
      Bool → Completion → AnyEndpointWriter W → AnyEndpointWriter W × Poll (Unit {0})
  poll_shutdown submits completion (AnyEndpointWriter.nusb w) = of_nusb (n.poll_shutdown w)
  poll_shutdown submits completion (AnyEndpointWriter.rusb w) =
      of_rusb (Writer.poll_shutdown submits completion w)

  -- The error of rusb is ignored.
  unfoldable pub submit_end : Bool × Bool → AnyEndpointWriter W → AnyEndpointWriter W
  unfolding Writer.submit_end
  submit_end submits (AnyEndpointWriter.nusb w) = AnyEndpointWriter.nusb (n.submit_end w)
  submit_end submits (AnyEndpointWriter.rusb w) =
      AnyEndpointWriter.rusb (Writer.submit_end submits w).0

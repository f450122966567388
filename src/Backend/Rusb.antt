-- ===== src/Backend/Rusb.antt =====
-- usb_backend/rusb.rs: the devices that libusb lists or reports, and the bulk transfers. What a poll finds of a
-- transfer, and whether libusb takes one, are arguments.
pub mod Reader
pub mod Writer
pub mod Polling
pub mod Memory
use rusbmux.Base.{ℕ, List}

-- `Poll<io::Result<A>>`
pub data Poll {ℓ} (A : Type ℓ) : Type ℓ where
  ready : A → Poll A
  failed pending : Poll A

-- What the channel of a bulk transfer has: nothing yet, the status and the bytes, or no sender any more.
pub data Completion : Type 0 where
  in_flight dropped : Completion
  completed : ℕ → List ℕ → Completion

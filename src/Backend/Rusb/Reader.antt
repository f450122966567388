-- ===== src/Backend/Rusb/Reader.antt =====
-- usb_backend/rusb.rs: `RusbAsyncReader`, bulk transfers as a stream of bytes.
pub mod Stream
use rusbmux.Base.{
  ℕ, zero, suc, ◌+◌, ◌-◌, min, Bool, true, false, List, [], ◌++◌, length, take, drop, ltb, ◌==◌,
  if◌then◌else◌,
}
use rusbmux.Backend.Rusb.{Poll, ready, failed, pending, Completion, in_flight, dropped, completed}

pub record RusbAsyncReader : Type 0 where
  pub buffer : List ℕ
  pub pos : ℕ
  -- Whether a transfer is in flight.
  pub pending : Bool

abbrev pub new : RusbAsyncReader
new = record { buffer = []; pos = 0; pending = false }

-- The reader after a poll, the bytes put into the caller's buffer, and the answer.
pub record Polled : Type 0 where
  pub reader : RusbAsyncReader
  pub bytes : List ℕ
  pub answer : Poll (Unit {0})

-- The bytes that the caller's buffer has room for; the rest is kept.
unfoldable pub chunk_to_buf : List ℕ → ℕ → RusbAsyncReader → RusbAsyncReader × List ℕ
chunk_to_buf chunk remaining r =
    let to_copy = min (length chunk) remaining in
    (
      if ltb to_copy (length chunk)
          then record r { buffer = chunk; pos = to_copy }
          else record r { buffer = []; pos = 0 },
      take to_copy chunk,
    )

abbrev pub from_buffer : ℕ → RusbAsyncReader → Polled
from_buffer remaining r =
    let to_copy = min (length r.buffer - r.pos) remaining in
    record {
      reader =
          if r.pos + to_copy == length r.buffer
          then record r { buffer = []; pos = 0 }
          else record r { pos = r.pos + to_copy };
      bytes = take to_copy (drop r.pos r.buffer);
      answer = ready tt;
    }

abbrev pub refuses : RusbAsyncReader → Polled
refuses r = record { reader = record r { pending = false }; bytes = []; answer = failed }

abbrev pub waits : RusbAsyncReader → Polled
waits r = record { reader = record r { pending = true }; bytes = []; answer = pending }

abbrev pub delivers : List ℕ → ℕ → RusbAsyncReader → Polled
delivers chunk remaining r =
    let (r', bytes) = chunk_to_buf chunk remaining r in
    record { reader = record r' { pending = false }; bytes = bytes; answer = ready tt }

-- A transfer that is already in flight.
abbrev pub drive : Completion → ℕ → RusbAsyncReader → Polled
drive in_flight remaining r = waits r
drive dropped remaining r = refuses r
drive (completed zero chunk) remaining r = delivers chunk remaining r
drive (completed (suc status) chunk) remaining r = refuses r

-- A transfer that has just been submitted: its status is not looked at.
abbrev pub drive_new : Completion → ℕ → RusbAsyncReader → Polled
drive_new in_flight remaining r = waits r
drive_new dropped remaining r = refuses r
drive_new (completed status chunk) remaining r = delivers chunk remaining r

-- `submits`: whether libusb takes a transfer.
unfoldable pub poll_read : Bool → Completion → ℕ → RusbAsyncReader → Polled
unfolding chunk_to_buf
poll_read submits completion remaining r =
    if ltb r.pos (length r.buffer)
    then from_buffer remaining r
    else if r.pending
    then drive completion remaining r
    else if submits
    then drive_new completion remaining r
    else record { reader = r; bytes = []; answer = failed }

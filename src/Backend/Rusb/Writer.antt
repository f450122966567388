-- ===== src/Backend/Rusb/Writer.antt =====
-- usb_backend/rusb.rs: `RusbAsyncWriter`, a stream of bytes as bulk transfers. The transfers that libusb has
-- taken are a list, in their order.
pub mod Transfers
pub mod Stuck
use rusbmux.Base.{
  ℕ, zero, suc, ◌+◌, ◌*◌, ◌%◌, Bool, true, false, ◌&&◌, not, List, [], ◌∷◌, ◌++◌, length, ltb, leb,
  ◌==◌, if◌then◌else◌,
}
use rusbmux.Conn.{max_packet_size}
use rusbmux.Backend.Rusb.{Poll, ready, failed, pending, Completion, in_flight, dropped, completed}

pub record RusbAsyncWriter : Type 0 where
  pub max_packet : ℕ
  pub buffer : List ℕ
  pub current_transfer_len : ℕ
  pub pending : Bool
  pub transfers : List (List ℕ)

abbrev pub new : ℕ → RusbAsyncWriter
new max_packet = record {
  max_packet = max_packet;
  buffer = [];
  current_transfer_len = 0;
  pending = false;
  transfers = [];
}

abbrev pub is_multiple_of : ℕ → ℕ → Bool
is_multiple_of n zero = n == 0
is_multiple_of n (suc m) = n % suc m == 0

abbrev pub is_empty : List ℕ → Bool
is_empty [] = true
is_empty (b ∷ bs) = false

-- A transfer of the whole buffer, which libusb has taken.
abbrev pub taken : ℕ → RusbAsyncWriter → RusbAsyncWriter
taken len w = record w {
  buffer = [];
  current_transfer_len = w.current_transfer_len + len;
  transfers = w.transfers ++ w.buffer ∷ [];
}

-- A transfer that is in flight, to `poll_write`: one that has succeeded is not taken off.
abbrev pub blocked : Completion → RusbAsyncWriter → RusbAsyncWriter × Poll ℕ
blocked in_flight w = (w, pending)
blocked dropped w = (record w { pending = false }, failed)
blocked (completed zero bytes) w = (w, pending)
blocked (completed (suc status) bytes) w = (w, failed)

-- `submits`: whether libusb takes a transfer. The buffer is gone where it does not.
abbrev pub accept : Bool → List ℕ → RusbAsyncWriter → RusbAsyncWriter × Poll ℕ
accept submits buf w =
    let w' = record w { buffer = w.buffer ++ buf } in
    if leb (max_packet_size * 2) (length w'.buffer)
    then if submits
      then (record (taken (length buf) w') { pending = true }, pending)
      else (record w' { buffer = [] }, failed)
    else (w', ready (length buf))

unfoldable pub poll_write : Bool → Completion → List ℕ → RusbAsyncWriter → RusbAsyncWriter × Poll ℕ
poll_write submits c buf w =
    if w.pending then blocked c w else if is_empty buf then (w, ready 0) else accept submits buf w

abbrev pub flushed : Completion → RusbAsyncWriter → RusbAsyncWriter × Poll (Unit {0})
flushed in_flight w = (record w { pending = true }, pending)
flushed dropped w = (record w { pending = false }, failed)
flushed (completed zero bytes) w = (record w { pending = false }, ready tt)
flushed (completed (suc status) bytes) w = (record w { pending = false }, failed)

unfoldable pub poll_flush : Bool → Completion → RusbAsyncWriter → RusbAsyncWriter × Poll (Unit {0})
poll_flush submits c w =
    if w.pending
    then flushed c w
    else if is_empty w.buffer
    then (w, ready tt)
    else if submits
    then flushed c (taken (length w.buffer) w)
    else (record w { buffer = [] }, failed)

abbrev pub poll_shutdown : Bool → Completion → RusbAsyncWriter → RusbAsyncWriter × Poll (Unit {0})
poll_shutdown submits c w = poll_flush submits c w

-- `sync_flush_and_zlp`: the buffer in one transfer, and an empty one where the length comes out even. `writes`
-- says whether each of the two succeeds.
abbrev pub ends_even : RusbAsyncWriter → Bool
ends_even w = ltb 0 w.current_transfer_len && is_multiple_of w.current_transfer_len w.max_packet

abbrev pub finish : Bool → RusbAsyncWriter → RusbAsyncWriter × Bool
finish writes w =
    if ends_even w
    then if writes
      then (record w { transfers = w.transfers ++ [] ∷ []; current_transfer_len = 0 }, true)
      else (w, false)
    else (record w { current_transfer_len = 0 }, true)

-- The length counts before the write, and the buffer is gone, whether it succeeds or not.
unfoldable pub submit_end : Bool × Bool → RusbAsyncWriter → RusbAsyncWriter × Bool
submit_end (first, second) w =
    if is_empty w.buffer
    then finish second w
    else if first
    then finish second (taken (length w.buffer) w)
    else (
      record w { buffer = []; current_transfer_len = w.current_transfer_len + length w.buffer },
      false,
    )

-- ===== src/Backend/Rusb/Writer/Stuck.antt =====
-- A write that makes the writer start a transfer by itself.
use rusbmux.Base.{
  ℕ, zero, suc, ◌≡◌, ◌≤◌, ◌*◌, refl, Bool, true, false, List, [], ◌∷◌, ◌++◌, length, length-append,
  leb, All, arith, if◌then◌else◌,
}
use rusbmux.Conn.{max_packet_size}
use rusbmux.Backend.Rusb.{Poll, ready, failed, pending, Completion, in_flight, dropped, completed}
use rusbmux.Backend.Rusb.Writer.{RusbAsyncWriter, taken, blocked, accept, is_empty, poll_write}

abbrev pub Writes : Type 0
Writes = List (Bool × Completion × List ℕ)

abbrev pub is_ready : Poll ℕ → Bool
is_ready (ready n) = true
is_ready failed = false
is_ready pending = false

abbrev pub is_dropped : Completion → Bool
is_dropped dropped = true
is_dropped in_flight = false
is_dropped (completed status bytes) = false

-- Whether one of the polls of a write, one after the other, says that bytes are taken.
abbrev pub any_ready : Writes → RusbAsyncWriter → Bool
any_ready [] w = false
any_ready ((submits, c, buf) ∷ polls) w =
    let (w', answer) = poll_write submits c buf w in
    let rest = any_ready polls w' in if is_ready answer then true else rest

abbrev pub Undropped : Writes → Type 0
Undropped = All λ poll. is_dropped poll.1 ≡ false

blocked_stays :
    (c : Completion) (w : RusbAsyncWriter)
    → is_dropped c ≡ false
    → ((blocked c w).0 ≡ w) × (is_ready (blocked c w).1 ≡ false)
blocked_stays in_flight w h = (refl, refl)
blocked_stays dropped w h = ground arith
blocked_stays (completed zero bytes) w h = (refl, refl)
blocked_stays (completed (suc status) bytes) w h = (refl, refl)

if_true : {A : Type 0} (b : Bool) (a c : A) → b ≡ true → (if b then a else c) ≡ a
if_true true a c h = refl
if_true false a c h = ground arith

poll_write_pending :
    (submits : Bool) (c : Completion) (buf : List ℕ) (w : RusbAsyncWriter)
    → w.pending ≡ true
    → is_dropped c ≡ false
    → ((poll_write submits c buf w).0 ≡ w) × (is_ready (poll_write submits c buf w).1 ≡ false)
unfolding poll_write
poll_write_pending submits c buf w flying h =
    let e : poll_write submits c buf w ≡ blocked c w =
      if_true w.pending (blocked c w) (if is_empty buf then (w, ready 0) else accept submits buf w)
        flying in
    rw e (blocked_stays c w h)

never_ready :
    (polls : Writes) (w : RusbAsyncWriter)
    → w.pending ≡ true
    → Undropped polls
    → any_ready polls w ≡ false
never_ready [] w flying h = refl
never_ready ((submits, c, buf) ∷ polls) w flying (h, hs) =
    let (same_writer, unready) = poll_write_pending submits c buf w flying h in
    rw (unready, same_writer) (never_ready polls w flying hs)

-- A write that fills the buffer to twice the largest packet is never answered: whatever its transfer comes to, as long
-- as the channel of the transfer is not dropped, no later poll of a write says that bytes are taken, unless a flush
-- comes in between.
pub poll_write_stuck :
    (c : Completion) (buf : List ℕ) (w : RusbAsyncWriter) (polls : Writes)
    → w.pending ≡ false
    → max_packet_size * 2 ≤ length buf
    → Undropped polls
    → any_ready ((true, c, buf) ∷ polls) w ≡ false
unfolding poll_write
poll_write_stuck c [] w polls idle long h = absurd (omega arith)
poll_write_stuck c (b ∷ bs) w polls idle long h =
    let full : leb (max_packet_size * 2) (length (w.buffer ++ b ∷ bs)) ≡ true =
      ground (arith, length-append w.buffer (b ∷ bs)) in
    let w' : RusbAsyncWriter = (accept true (b ∷ bs) w).0 in
    rw (idle, full)
      (never_ready polls
        (record (taken (length (b ∷ bs)) (record w { buffer = w.buffer ++ b ∷ bs })) {
          pending = true;
        })
        refl h)

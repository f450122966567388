-- ===== src/Backend/Rusb/Reader/Stream.antt =====
-- The reader against the stream of the bytes of its transfers.
use rusbmux.Base.{
  ℕ, zero, suc, ◌≡◌, ◌≤◌, ◌+◌, ◌-◌, min, refl, sym, ap, ◌∙◌, Bool, true, false, List, [], ◌∷◌, ◌++◌,
  length, take, drop, ltb, ◌==◌, if◌then◌else◌, take-append-drop, drop-drop, append-nil,
  append_assoc, arith, Bool-cases, inl, inr,
}
use rusbmux.Backend.Rusb.{failed, Completion, in_flight, dropped, completed}
use rusbmux.Backend.Rusb.Reader.{
  RusbAsyncReader, Polled, chunk_to_buf, from_buffer, delivers, drive, drive_new, poll_read,
}

abbrev pub unread : RusbAsyncReader → List ℕ
unread r = drop r.pos r.buffer

abbrev pub chunk_of : Completion → List ℕ
chunk_of in_flight = []
chunk_of dropped = []
chunk_of (completed status chunk) = chunk

abbrev pub good_chunk_of : Completion → List ℕ
good_chunk_of in_flight = []
good_chunk_of dropped = []
good_chunk_of (completed zero chunk) = chunk
good_chunk_of (completed (suc status) chunk) = []

-- The bytes of the transfer that a poll takes up, if it takes one up.
abbrev pub received : Bool → Completion → RusbAsyncReader → List ℕ
received submits completion r =
    if ltb r.pos (length r.buffer)
    then []
    else if r.pending
    then good_chunk_of completion
    else if submits
    then chunk_of completion
    else []

drop_all : (n : ℕ) (xs : List ℕ) → length xs ≤ n → drop n xs ≡ []
drop_all zero [] h = refl
drop_all zero (x ∷ xs) h = absurd (omega arith)
drop_all (suc n) [] h = refl
drop_all (suc n) (x ∷ xs) h = drop_all n xs (omega arith)

delivers_all :
    (chunk : List ℕ) (remaining : ℕ) (r : RusbAsyncReader)
    → (delivers chunk remaining r).bytes ++ unread (delivers chunk remaining r).reader ≡ chunk
unfolding chunk_to_buf
delivers_all chunk remaining r =
    let n = min (length chunk) remaining in
    elim (Bool-cases (ltb n (length chunk))) [
      | inl short ↦ rw short (take-append-drop n chunk)
      | inr whole ↦
          let none_left : drop n chunk ≡ [] = drop_all n chunk (ground arith) in
          rw whole (ap (λ rest. take n chunk ++ rest) (sym none_left) ∙ take-append-drop n chunk)
    ]

from_buffer_all :
    (remaining : ℕ) (r : RusbAsyncReader)
    → (from_buffer remaining r).bytes ++ unread (from_buffer remaining r).reader ≡ unread r
from_buffer_all remaining r =
    let n = min (length r.buffer - r.pos) remaining in
    let split : take n (unread r) ++ drop (r.pos + n) r.buffer ≡ unread r =
      ap (λ rest. take n (unread r) ++ rest) (sym (drop-drop r.pos n r.buffer))
      ∙ take-append-drop n (unread r) in
    elim (Bool-cases (r.pos + n == length r.buffer)) [
      | inl whole ↦
          let none_left : drop (r.pos + n) r.buffer ≡ [] =
            drop_all (r.pos + n) r.buffer (ground arith) in
          rw whole (ap (λ rest. take n (unread r) ++ rest) (sym none_left) ∙ split)
      | inr part ↦ rw part split
    ]

drive_all :
    (c : Completion) (remaining : ℕ) (r : RusbAsyncReader)
    → unread r ≡ []
    → (drive c remaining r).bytes ++ unread (drive c remaining r).reader ≡ good_chunk_of c
drive_all in_flight remaining r h = h
drive_all dropped remaining r h = h
drive_all (completed zero chunk) remaining r h = delivers_all chunk remaining r
drive_all (completed (suc status) chunk) remaining r h = h

drive_new_all :
    (c : Completion) (remaining : ℕ) (r : RusbAsyncReader)
    → unread r ≡ []
    → (drive_new c remaining r).bytes ++ unread (drive_new c remaining r).reader ≡ chunk_of c
drive_new_all in_flight remaining r h = h
drive_new_all dropped remaining r h = h
drive_new_all (completed status chunk) remaining r h = delivers_all chunk remaining r

abbrev drained : Bool → Bool → Completion → ℕ → RusbAsyncReader → Polled
drained flying submits c remaining r =
    if flying
    then drive c remaining r
    else if submits
    then drive_new c remaining r
    else record { reader = r; bytes = []; answer = failed }

drained_all :
    (flying submits : Bool) (c : Completion) (remaining : ℕ) (r : RusbAsyncReader)
    → unread r ≡ []
    → (drained flying submits c remaining r).bytes
        ++ unread (drained flying submits c remaining r).reader
      ≡ (if flying then good_chunk_of c else if submits then chunk_of c else [])
drained_all true submits c remaining r h = drive_all c remaining r h
drained_all false true c remaining r h = drive_new_all c remaining r h
drained_all false false c remaining r h = h

-- One poll: what it puts into the caller's buffer and what it leaves unread is what was unread before, and then what
-- it has received.
pub poll_read_all :
    (submits : Bool) (c : Completion) (remaining : ℕ) (r : RusbAsyncReader)
    → (poll_read submits c remaining r).bytes ++ unread (poll_read submits c remaining r).reader
      ≡ unread r ++ received submits c r
unfolding poll_read
poll_read_all submits c remaining r = elim (Bool-cases (ltb r.pos (length r.buffer))) [
  | inl left ↦ rw left (from_buffer_all remaining r ∙ sym (append-nil (unread r)))
  | inr empty ↦
      let nothing : unread r ≡ [] = drop_all r.pos r.buffer (ground arith) in
      rw (empty, nothing) (drained_all r.pending submits c remaining r nothing)
]

-- What each poll meets: whether libusb takes a transfer, what there is of the one in flight, and the room.
abbrev pub Polls : Type 0
Polls = List (Bool × Completion × ℕ)

-- The bytes that the polls put out one after the other, and the reader behind them.
abbrev pub run : Polls → RusbAsyncReader → List ℕ × RusbAsyncReader
run [] r = ([], r)
run ((submits, c, remaining) ∷ polls) r =
    let p = poll_read submits c remaining r in
    let (bytes, r') = run polls p.reader in (p.bytes ++ bytes, r')

-- The bytes of the transfers that the polls take up.
abbrev pub transferred : Polls → RusbAsyncReader → List ℕ
transferred [] r = []
transferred ((submits, c, remaining) ∷ polls) r =
    received submits c r ++ transferred polls (poll_read submits c remaining r).reader

-- The reader is a stream: over any polls, whatever room their buffers have, the bytes put out and those still unread
-- are the bytes of the transfers taken up, in their order, none lost and none twice.
pub run-poll_read :
    (polls : Polls) (r : RusbAsyncReader)
    → (run polls r).0 ++ unread (run polls r).1 ≡ unread r ++ transferred polls r
run-poll_read [] r = sym (append-nil (unread r))
run-poll_read ((submits, c, remaining) ∷ polls) r =
    let p = poll_read submits c remaining r in
    let (bytes, r') = run polls p.reader in
    append_assoc p.bytes bytes (unread r')
    ∙ ap (λ rest. p.bytes ++ rest) (run-poll_read polls p.reader)
    ∙ sym (append_assoc p.bytes (unread p.reader) (transferred polls p.reader))
    ∙ ap (λ front. front ++ transferred polls p.reader) (poll_read_all submits c remaining r)
    ∙ append_assoc (unread r) (received submits c r) (transferred polls p.reader)

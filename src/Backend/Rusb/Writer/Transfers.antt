-- ===== src/Backend/Rusb/Writer/Transfers.antt =====
-- What the writer sends of a message, and what a transfer of `poll_write` itself does to it.
use rusbmux.Base.{
  ℕ, suc, ◌≡◌, ◌<◌, ◌+◌, ◌*◌, refl, ◌∙◌, true, false, List, [], ◌∷◌, ◌++◌, length, length-append,
  ltb, leb, append-nil, append_assoc, arith, if◌then◌else◌, Bool-cases, inl, inr,
}
use native.Mathlib.Nat.{zero-add}
use rusbmux.Conn.{max_packet_size}
use rusbmux.Backend.Rusb.{in_flight}
use rusbmux.Backend.Rusb.Writer.{RusbAsyncWriter, is_multiple_of, poll_write, submit_end}

-- The writes of one message, each taken at once.
abbrev pub write_each : List (List ℕ) → RusbAsyncWriter → RusbAsyncWriter
write_each [] w = w
write_each (buf ∷ bufs) w = write_each bufs (poll_write true in_flight buf w).0

abbrev pub joined : List (List ℕ) → List ℕ
joined [] = []
joined (buf ∷ bufs) = buf ++ joined bufs

-- The transfers of a message: none of an empty one, and an empty one behind a length that is a multiple of the
-- endpoint's packet size, so that the device sees where it ends.
abbrev pub framed : ℕ → List ℕ → List (List ℕ)
framed m [] = []
framed m (b ∷ bs) = (b ∷ bs) ∷ (if is_multiple_of (length (b ∷ bs)) m then [] ∷ [] else [])

abbrev pub Idle : RusbAsyncWriter → Type 0
Idle w = (w.pending ≡ false) × (w.buffer ≡ []) × (w.current_transfer_len ≡ 0)

below : (n : ℕ) → n < max_packet_size * 2 → leb (max_packet_size * 2) n ≡ false
below n h = ground arith

poll_write_buffers :
    (buf : List ℕ) (w : RusbAsyncWriter)
    → w.pending ≡ false
    → length w.buffer + length buf < max_packet_size * 2
    → (poll_write true in_flight buf w).0 ≡ record w { buffer = w.buffer ++ buf }
unfolding poll_write
poll_write_buffers [] w idle h = rw (idle, append-nil w.buffer) refl
poll_write_buffers (b ∷ bs) w idle h =
    let fits : leb (max_packet_size * 2) (length (w.buffer ++ b ∷ bs)) ≡ false =
      below (length (w.buffer ++ b ∷ bs)) (ground (arith, length-append w.buffer (b ∷ bs))) in
    rw (idle, fits) refl

write_each_buffers :
    (bufs : List (List ℕ)) (w : RusbAsyncWriter)
    → w.pending ≡ false
    → length w.buffer + length (joined bufs) < max_packet_size * 2
    → write_each bufs w ≡ record w { buffer = w.buffer ++ joined bufs }
write_each_buffers [] w idle h = rw (append-nil w.buffer) refl
write_each_buffers (buf ∷ bufs) w idle h =
    let total = length-append buf (joined bufs) in
    let w' : RusbAsyncWriter = record w { buffer = w.buffer ++ buf } in
    let fits : length w'.buffer + length (joined bufs) < max_packet_size * 2 =
      ground (arith, total, length-append w.buffer buf) in
    rw (poll_write_buffers buf w idle (ground (arith, total)))
      (write_each_buffers bufs w' idle fits ∙ rw (append_assoc w.buffer buf (joined bufs)) refl)

finish_framed :
    (bytes : List ℕ) (w : RusbAsyncWriter)
    → w.current_transfer_len ≡ 0
    → submit_end (true, true) (record w { buffer = bytes })
      ≡ (record w { buffer = []; transfers = w.transfers ++ framed w.max_packet bytes }, true)
unfolding submit_end
finish_framed [] w h = rw (h, append-nil w.transfers) refl
finish_framed (b ∷ bs) w h =
    let some_bytes : ltb 0 (suc (length bs)) ≡ true = ground arith in
    elim (Bool-cases (is_multiple_of (length (b ∷ bs)) w.max_packet)) [
      | inl even ↦ rw (h, zero-add, some_bytes, even, append_assoc w.transfers) refl
      | inr odd ↦ rw (h, zero-add, some_bytes, odd) refl
    ]

-- The writes of a message that stays below twice the largest packet reach the device as one transfer that holds them
-- all, in order, behind which an empty transfer stands exactly if the length is a multiple of the packet size; and
-- the writer is idle again.
pub submit_end-write_each :
    (bufs : List (List ℕ)) (w : RusbAsyncWriter)
    → Idle w
    → length (joined bufs) < max_packet_size * 2
    → submit_end (true, true) (write_each bufs w)
      ≡ (record w { transfers = w.transfers ++ framed w.max_packet (joined bufs) }, true)
submit_end-write_each bufs w (idle, empty, none_counted) h =
    let total : length w.buffer + length (joined bufs) < max_packet_size * 2 =
      rw (empty, zero-add) h in
    rw (write_each_buffers bufs w idle total, empty) (finish_framed (joined bufs) w none_counted)

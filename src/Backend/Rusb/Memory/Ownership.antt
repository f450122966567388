-- ===== src/Backend/Rusb/Memory/Ownership.antt =====
-- usb_backend/rusb.rs: each allocation of a bulk transfer is freed once.
use rusbmux.Base.{
  ℕ, zero, suc, ◌≡◌, ◌≤◌, ◌⊎◌, ◌≢◌, Bool, true, false, none, some, List, take, length, ◌==◌,
  if◌then◌else◌, arith,
}
use native.Mathlib.Decide.{dec_lt}
use rusbmux.Base.Map.{get, insert, remove, get-insert, get-remove}
use rusbmux.Error.{err, unexpected_packet}
use rusbmux.Backend.Rusb.Memory.{
  TransferUserData, Cell, buffer, user_data, transfer, Heap, bulk_callback, alloc_and_submit,
  submitted,
}

-- Nothing is allocated from the next address on.
abbrev pub IsHeap : Heap → Type 0
IsHeap h = (a : ℕ) → h.next ≤ a → get a h.cells ≡ none

-- The cells of `h'` are those of `h`, less the ones at three addresses.
abbrev pub Without : ℕ → ℕ → ℕ → Heap → Heap → Type 0
Without p u b h h' =
    (a : ℕ)
    → get a h'.cells
      ≡ (if b == a then none else if p == a then none else if u == a then none else get a h.cells)

freed : Heap → ℕ → ℕ → ℕ → ℕ → Heap
freed h p u b flag = record h {
  cells = remove u (remove p (remove b h.cells));
  flags = insert flag true h.flags;
}

freed-Without : (h : Heap) (p u b flag : ℕ) → Without p u b h (freed h p u b flag)
unfolding freed
freed-Without h p u b flag a = ground (
  arith,
  get-remove u a (remove p (remove b h.cells)),
  get-remove p a (remove b h.cells),
  get-remove b a h.cells,
)

-- The callback of a transfer whose three allocations are live does not fault: it hands over the bytes that
-- were transferred, sets the flag, and frees these three and nothing else.
pub bulk_callback-Without :
    (h : Heap) (p u b flag status n : ℕ) (bytes : List ℕ)
    → get p h.cells ≡ some (transfer u)
    → get u h.cells ≡ some (user_data (record { buffer_ptr = b; completed = flag }))
    → get b h.cells ≡ some (buffer bytes)
    → n ≤ length bytes
    → (h' : Heap) × (bulk_callback p status n h
        ≡ some (record { status = status; bytes = take n bytes }, h'))
      × Without p u b h h'
      × (get flag h'.flags ≡ some true)
unfolding bulk_callback freed
bulk_callback-Without h p u b flag status zero bytes t d r fits = (
  freed h p u b flag,
  ground (arith, get-remove b p h.cells, get-remove b u h.cells, get-remove p u (remove b h.cells)),
  freed-Without h p u b flag,
  ground (arith, get-insert flag flag true h.flags),
)
bulk_callback-Without h p u b flag status (suc n) bytes t d r fits = (
  freed h p u b flag,
  ground (arith, get-remove b p h.cells, get-remove b u h.cells, get-remove p u (remove b h.cells)),
  freed-Without h p u b flag,
  ground (arith, get-insert flag flag true h.flags),
)

-- The heap once the transfer is filled in.
unfoldable pub filled : Heap → ℕ → Heap
filled h b = record h {
  next = suc (suc (suc h.next));
  cells = insert h.next (transfer (suc (suc h.next))) (
      insert (suc (suc h.next)) (user_data (record { buffer_ptr = b; completed = suc h.next }))
        (insert h.next (transfer 0) h.cells));
  flags = insert (suc h.next) false h.flags;
}

pub get-filled :
    (h : Heap) (b a : ℕ)
    → get a (filled h b).cells ≡ (
        if h.next == a
        then some (transfer (suc (suc h.next)))
        else if suc (suc h.next) == a
        then some (user_data (record { buffer_ptr = b; completed = suc h.next }))
        else get a h.cells)
unfolding filled
get-filled h b a =
    let below = insert h.next (transfer 0) h.cells in
    let mine = user_data (record { buffer_ptr = b; completed = suc h.next }) in
    ground (
      arith,
      get-insert h.next a (transfer (suc (suc h.next))) (insert (suc (suc h.next)) mine below),
      get-insert (suc (suc h.next)) a mine below,
      get-insert h.next a (transfer 0) h.cells,
    )

-- What is live is below the next address.
pub live_below : (h : Heap) (b : ℕ) (c : Cell) → IsHeap h → get b h.cells ≡ some c → suc b ≤ h.next
live_below h b c fresh r = elim (dec_lt b h.next) [
  | yes lt ↦ lt
  | no ge ↦ absurd (cc (fresh b (omega arith)))
]

submitted_refused :
    (h : Heap) (ret p flag u b : ℕ) (ud : TransferUserData) (bytes : List ℕ) (v : ℕ)
    → get p h.cells ≡ some (transfer v)
    → get u h.cells ≡ some (user_data ud)
    → get b h.cells ≡ some (buffer bytes)
    → submitted (suc ret) p flag u b h
      ≡ some (err unexpected_packet, record h { cells = remove p (remove b (remove u h.cells)) })
submitted_refused h ret p flag u b ud bytes v t d r =
    ground
      (arith, get-remove u b h.cells, get-remove u p h.cells, get-remove b p (remove u h.cells))

-- A transfer that libusb does not allocate or does not take leaves the heap as it was, less the buffer, and
-- is the error UnexpectedPacket.
pub alloc_and_submit-refused :
    (h : Heap) (allocates : Bool) (ret b : ℕ) (bytes : List ℕ)
    → IsHeap h
    → get b h.cells ≡ some (buffer bytes)
    → (allocates ≡ false) ⊎ (ret ≢ 0)
    → (h' : Heap) × (alloc_and_submit allocates ret b h ≡ some (err unexpected_packet, h'))
      × ((a : ℕ) → get a h'.cells ≡ (if b == a then none else get a h.cells))
unfolding alloc_and_submit filled
alloc_and_submit-refused h false ret b bytes fresh r refused =
    (record h { cells = remove b h.cells }, ground arith, λ a. get-remove b a h.cells)
alloc_and_submit-refused h true zero b bytes fresh r refused = absurd (ground arith)
alloc_and_submit-refused h true (suc ret) b bytes fresh r refused =
    let g = filled h b in
    let u = suc (suc h.next) in
    let lt = live_below h b (buffer bytes) fresh r in
    (
      record g { cells = remove h.next (remove b (remove u g.cells)) },
      submitted_refused g ret h.next (suc h.next) u b
          (record { buffer_ptr = b; completed = suc h.next }) bytes u
          (ground (arith, get-filled h b h.next)) (ground (arith, get-filled h b u))
          (ground (arith, get-filled h b b)),
      λ a. ground (
        arith,
        get-remove h.next a (remove b (remove u g.cells)),
        get-remove b a (remove u g.cells),
        get-remove u a g.cells,
        get-filled h b a,
        fresh a,
      ),
    )

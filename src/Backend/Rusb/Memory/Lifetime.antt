-- ===== src/Backend/Rusb/Memory/Lifetime.antt =====
-- usb_backend/rusb.rs: a bulk transfer from its submission to its callback, and the drop of its handle.
use rusbmux.Base.{
  ℕ, suc, ◌≡◌, ◌≤◌, refl, true, false, none, some, List, ◌∷◌, take, length, ◌==◌, if◌then◌else◌,
  arith,
}
use rusbmux.Base.Map.{get, insert, get-insert}
use rusbmux.Error
use rusbmux.Error.{Result}
use rusbmux.Backend.Rusb.Memory.{
  buffer, user_data, transfer, Heap, bulk_callback, TransferHandle, drop_load, drop_cancel, drop,
  alloc_and_submit,
}
use rusbmux.Backend.Rusb.Memory.Ownership.{
  IsHeap, filled, get-filled, live_below, bulk_callback-Without,
}

-- The device writes into the buffer.
abbrev pub device_writes : ℕ → List ℕ → Heap → Heap
device_writes b bytes h = record h { cells = insert b (buffer bytes) h.cells }

handle_of : Heap → TransferHandle
handle_of h = record { transfer_ptr = h.next; completed = suc h.next }

drop_unset :
    (h : Heap) (t : TransferHandle) (u : ℕ)
    → get t.completed h.flags ≡ some false
    → get t.transfer_ptr h.cells ≡ some (transfer u)
    → drop t h ≡ some (tt, record h { cancelled = t.transfer_ptr ∷ h.cancelled })
unfolding drop
drop_unset h t u unset live = ground arith

drop_set :
    (h : Heap) (t : TransferHandle) → get t.completed h.flags ≡ some true → drop t h ≡ some (tt, h)
unfolding drop
drop_set h t set = ground arith

module _ (h : Heap) (b : ℕ) (bytes : List ℕ) (fresh : IsHeap h)
    (r : get b h.cells ≡ some (buffer bytes)) where
  accepted : alloc_and_submit true 0 b h ≡ some (Error.ok (handle_of h), filled h b)
  unfolding alloc_and_submit filled handle_of
  accepted = refl

  -- A callback on the heap of a submitted transfer, after the device has written.
  completed_lem :
      (written : List ℕ) (status n : ℕ)
      → n ≤ length written
      → (h' : Heap) × (bulk_callback h.next status n (device_writes b written (filled h b))
          ≡ some (record { status = status; bytes = take n written }, h'))
        × ((a : ℕ) → get a h'.cells ≡ (if b == a then none else get a h.cells))
        × (get (suc h.next) h'.flags ≡ some true)
  completed_lem written status n fits =
      let g = device_writes b written (filled h b) in
      let lt = live_below h b (buffer bytes) fresh r in
      let look = λ (a : ℕ). get-insert b a (buffer written) (filled h b).cells in
      let (h', runs, without, flagged) =
        bulk_callback-Without g h.next (suc (suc h.next)) b (suc h.next) status n written
          (ground (arith, look h.next, get-filled h b h.next))
          (ground (arith, look (suc (suc h.next)), get-filled h b (suc (suc h.next))))
          (ground (arith, look b)) fits in
      (h', runs, λ a. ground (arith, without a, look a, get-filled h b a, fresh a), flagged)

-- A transfer that libusb takes: its callback, after the device has written into the buffer, hands over the
-- bytes that were transferred, and leaves the heap as it was before the submission, less the buffer. A
-- drop of the handle before the callback finds the transfer live and asks libusb to cancel it, and nothing
-- else; one after it asks for nothing.
pub alloc_and_submit-drop :
    (h : Heap) (b : ℕ) (bytes written : List ℕ) (status n : ℕ)
    → IsHeap h
    → get b h.cells ≡ some (buffer bytes)
    → n ≤ length written
    → (t : TransferHandle) × (g h' : Heap) × (alloc_and_submit true 0 b h ≡ some (Error.ok t, g))
      × (drop t g ≡ some (tt, record g { cancelled = t.transfer_ptr ∷ g.cancelled }))
      × (bulk_callback t.transfer_ptr status n (device_writes b written g)
          ≡ some (record { status = status; bytes = take n written }, h'))
      × ((a : ℕ) → get a h'.cells ≡ (if b == a then none else get a h.cells))
      × (drop t h' ≡ some (tt, h'))
unfolding handle_of filled
alloc_and_submit-drop h b bytes written status n fresh r fits =
    let (h', runs, restored, flagged) = completed_lem h b bytes fresh r written status n fits in
    (
      handle_of h,
      filled h b,
      h',
      accepted h b bytes fresh r,
      drop_unset (filled h b) (handle_of h) (suc (suc h.next))
          (ground (arith, get-insert (suc h.next) (suc h.next) false h.flags))
          (ground (arith, get-filled h b h.next)),
      runs,
      restored,
      drop_set h' (handle_of h) flagged,
    )

-- `drop` loads the flag and then cancels, and the callback can run between the two: the handle is then
-- cancelled on a transfer that has been freed.
pub drop_cancel-bulk_callback :
    (h : Heap) (t : TransferHandle) (u b status n : ℕ) (bytes : List ℕ)
    → get t.completed h.flags ≡ some false
    → get t.transfer_ptr h.cells ≡ some (transfer u)
    → get u h.cells ≡ some (user_data (record { buffer_ptr = b; completed = t.completed }))
    → get b h.cells ≡ some (buffer bytes)
    → n ≤ length bytes
    → (h' : Heap) × (drop_load t h ≡ some (false, h))
      × (bulk_callback t.transfer_ptr status n h
          ≡ some (record { status = status; bytes = take n bytes }, h'))
      × (drop_cancel false t h' ≡ none)
drop_cancel-bulk_callback h t u b status n bytes unset live d r fits =
    let (h', runs, without, flagged) =
      bulk_callback-Without h t.transfer_ptr u b t.completed status n bytes live d r fits in
    (h', ground arith, runs, ground (arith, without t.transfer_ptr))

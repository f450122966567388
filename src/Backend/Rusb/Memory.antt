-- ===== src/Backend/Rusb/Memory.antt =====
-- usb_backend/rusb.rs: the memory of a bulk transfer. The transfer of libusb, the data of its callback and the
-- buffer are freed by hand, so they are cells of a heap, and what would be undefined behaviour is a fault.
pub mod Ownership
pub mod Lifetime
use rusbmux.Base.{
  ℕ, zero, suc, ◌+◌, Bool, true, false, not, Option, none, some, List, [], ◌∷◌, take, length, leb,
  ◌==◌, if◌then◌else◌,
}
use rusbmux.Base.Map.{get, insert, remove}
use rusbmux.Error
use rusbmux.Error.{Result, err, unexpected_packet}

-- `TransferUserData`, less the sender.
pub record TransferUserData : Type 0 where
  pub buffer_ptr : ℕ
  pub completed : ℕ

pub data Cell : Type 0 where
  -- A `Vec<u8>`, with what it holds.
  buffer : List ℕ → Cell
  user_data : TransferUserData → Cell
  -- A `libusb_transfer`, by the pointer to its user data once it is filled in.
  transfer : ℕ → Cell

-- `next` is the address of the next allocation. The flags are the `Arc<AtomicBool>`, which are freed with
-- their last owner. `cancelled` has the transfers that libusb was asked to cancel, the newest first.
pub record Heap : Type 0 where
  pub next : ℕ
  pub cells : List (ℕ × Cell)
  pub flags : List (ℕ × Bool)
  pub cancelled : List ℕ

-- `none` is a fault: a use after a free, or a second free.
abbrev pub M {ℓ} : Type ℓ → Type ℓ
M A = Heap → Option (A × Heap)

abbrev pub pure {ℓ} : {A : Type ℓ} → A → M A
pure a h = some (a, h)

infixl 5 ◌>>=◌ ◌>>◌
abbrev pub ◌>>=◌ {ℓ κ} : {A : Type ℓ} {B : Type κ} → M A → (A → M B) → M B
◌>>=◌ m f h = elim (m h) [ none ↦ none | some (a, h') ↦ f a h' ]

abbrev pub ◌>>◌ {ℓ} : {B : Type ℓ} → M (Unit {0}) → M B → M B
m >> k = m >>= λ _. k

abbrev pub alloc : Cell → M ℕ
alloc c h = some (h.next, record h { next = suc h.next; cells = insert h.next c h.cells })

abbrev pub new_flag : M ℕ
new_flag h = some (h.next, record h { next = suc h.next; flags = insert h.next false h.flags })

abbrev pub store_flag : ℕ → M (Unit {0})
store_flag a h = some (tt, record h { flags = insert a true h.flags })

abbrev flag_value : Option Bool → Bool
flag_value none = false
flag_value (some b) = b

abbrev pub load_flag : ℕ → M Bool
load_flag a h = some (flag_value (get a h.flags), h)

abbrev found_transfer : Option Cell → Option ℕ
found_transfer (some (transfer u)) = some u
found_transfer _ = none

abbrev found_user_data : Option Cell → Option TransferUserData
found_user_data (some (user_data u)) = some u
found_user_data _ = none

abbrev found_buffer : Option Cell → Option (List ℕ)
found_buffer (some (buffer bytes)) = some bytes
found_buffer _ = none

-- A read through a pointer of the type that it points to.
abbrev pub with_value {ℓ} : {A : Type ℓ} → Option A → M A
with_value none h = none
with_value (some a) h = some (a, h)

abbrev pub load_transfer : ℕ → M ℕ
load_transfer p h = with_value (found_transfer (get p h.cells)) h

abbrev pub load_user_data : ℕ → M TransferUserData
load_user_data p h = with_value (found_user_data (get p h.cells)) h

abbrev pub load_buffer : ℕ → M (List ℕ)
load_buffer p h = with_value (found_buffer (get p h.cells)) h

abbrev pub erase : ℕ → M (Unit {0})
erase p h = some (tt, record h { cells = remove p h.cells })

abbrev pub free_transfer : ℕ → M (Unit {0})
free_transfer p = do u ← load_transfer p; erase p

abbrev pub free_user_data : ℕ → M (Unit {0})
free_user_data p = do u ← load_user_data p; erase p

abbrev pub free_buffer : ℕ → M (Unit {0})
free_buffer p = do bytes ← load_buffer p; erase p

-- `libusb_fill_bulk_transfer`
abbrev pub fill : ℕ → ℕ → M (Unit {0})
fill p u h = some (tt, record h { cells = insert p (transfer u) h.cells })

pub record BulkResult : Type 0 where
  pub status : ℕ
  pub bytes : List ℕ

-- `slice::from_raw_parts(ptr, n).to_vec()`
abbrev pub copy_out : ℕ → List ℕ → M (List ℕ)
copy_out n bytes h = if leb n (length bytes) then some (take n bytes, h) else none

abbrev pub copied : ℕ → ℕ → M (List ℕ)
copied p zero = pure []
copied p (suc n) = do bytes ← load_buffer p; copy_out (suc n) bytes

-- The callback of a transfer that libusb has finished. The boxed user data goes at the end of the scope.
unfoldable pub bulk_callback : ℕ → ℕ → ℕ → M BulkResult
bulk_callback p status actual_length = do
  u ← load_transfer p
  ud ← load_user_data u
  store_flag ud.completed
  bytes ← copied ud.buffer_ptr actual_length
  free_buffer ud.buffer_ptr
  free_transfer p
  free_user_data u
  pure (record { status = status; bytes = bytes })

pub record TransferHandle : Type 0 where
  pub transfer_ptr : ℕ
  pub completed : ℕ

-- `libusb_cancel_transfer`, whose own result is ignored.
abbrev pub note_cancelled : ℕ → M (Unit {0})
note_cancelled p h = some (tt, record h { cancelled = p ∷ h.cancelled })

abbrev pub cancel : ℕ → M (Unit {0})
cancel p = do u ← load_transfer p; note_cancelled p

-- The two steps of `TransferHandle::drop`, which the event thread can come between.
abbrev pub drop_load : TransferHandle → M Bool
drop_load t = load_flag t.completed

abbrev pub drop_cancel : Bool → TransferHandle → M (Unit {0})
drop_cancel true t = pure tt
drop_cancel false t = cancel t.transfer_ptr

unfoldable pub drop : TransferHandle → M (Unit {0})
drop t = do completed ← drop_load t; drop_cancel completed t

-- What follows `libusb_submit_transfer`, whose result is zero where it takes the transfer.
abbrev pub submitted : ℕ → ℕ → ℕ → ℕ → ℕ → M (Result TransferHandle)
submitted zero p flag u b = pure (Error.ok (record { transfer_ptr = p; completed = flag }))
submitted (suc ret) p flag u b = do
  free_user_data u
  free_buffer b
  free_transfer p
  pure (err unexpected_packet)

-- `allocates`: whether `libusb_alloc_transfer` gives a transfer. If it does not, the buffer is dropped.
abbrev pub allocated : Bool → ℕ → ℕ → M (Result TransferHandle)
allocated false ret b = do free_buffer b; pure (err unexpected_packet)
allocated true ret b = do
  p ← alloc (transfer 0)
  flag ← new_flag
  u ← alloc (user_data (record { buffer_ptr = b; completed = flag }))
  fill p u
  submitted ret p flag u b

unfoldable pub alloc_and_submit : Bool → ℕ → ℕ → M (Result TransferHandle)
alloc_and_submit allocates ret b = allocated allocates ret b

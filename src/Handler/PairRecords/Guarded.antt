-- ===== src/Handler/PairRecords/Guarded.antt =====
-- The three handlers of pair records: no name leaves the directory.
use rusbmux.Base.{ℕ, ◌≡◌, ◌≢◌, refl, All, arith, true, false, Option, List, [], ◌∷◌, ◌++◌}
use rusbmux.Error.{unexpected_packet, bad_command, err}
use rusbmux.Handler.Answers.{and_then}
use rusbmux.Handler.{Session, send_result}
use rusbmux.Handler.PairRecords.{
  Store, is_malformed, contains, extension, path_of, read_pair_record, delete_pair_record,
  answer_file, handle_save_pair_record, handle_read_pair_record, handle_delete_pair_record,
}

abbrev pub IsNoSeparator : ℕ → Type 0
IsNoSeparator b = (◌≢◌ {A = ℕ} b b'/') × (◌≢◌ {A = ℕ} b b'\\')

no_separators :
    (id : List ℕ) → contains b'/' id ≡ false → contains b'\\' id ≡ false → All IsNoSeparator id
no_separators [] h k = tt
no_separators (b ∷ bs) h k =
    ((λ e. ground arith, λ e. ground arith), no_separators bs (ground arith) (ground arith))

contains-append_false :
    (c : ℕ) (xs ys : List ℕ)
    → contains c xs ≡ false
    → contains c ys ≡ false
    → contains c (xs ++ ys) ≡ false
contains-append_false c [] ys h k = k
contains-append_false c (x ∷ xs) ys h k =
    ground (arith, contains-append_false c xs ys (ground arith) k)

module _ {Value World : Type 0} (x : Session Value World) (f : Store Value World) where
  -- A malformed id is answered with BadCommand by all three handlers, which touch no file.
  pub malformed_refused :
      (id content : List ℕ) (device_id : Option ℕ) (tag : ℕ) (w : World)
      → is_malformed id ≡ true
      → let refused =
          and_then (send_result x bad_command tag w) λ w'. (w', err unexpected_packet) in
        (handle_save_pair_record x f id content device_id tag w ≡ refused)
        × (handle_read_pair_record x f id tag w ≡ refused)
        × (handle_delete_pair_record x f id tag w ≡ refused)
  unfolding handle_save_pair_record handle_read_pair_record handle_delete_pair_record
  malformed_refused id content device_id tag w h = (ground arith, ground arith, ground arith)

  -- An id that is not malformed names a file of the directory itself: the name has no separator, and
  -- reading and deleting use that file.
  pub accepted_stays :
      (id : List ℕ) (tag : ℕ) (w : World)
      → is_malformed id ≡ false
      → (name : List ℕ) × (path_of x f id ≡ f.lockdown_path ++ b'/' ∷ name)
        × All IsNoSeparator name
        × (read_pair_record x f id tag w ≡ answer_file x f tag w (f.read_file (path_of x f id) w))
        × (delete_pair_record x f id w ≡ f.remove_file (path_of x f id) w)
  unfolding read_pair_record delete_pair_record
  accepted_stays id tag w h = (
    id ++ extension,
    refl,
    no_separators (id ++ extension) (contains-append_false b'/' id extension (ground arith) refl)
        (contains-append_false b'\\' id extension (ground arith) refl),
    ground arith,
    ground arith,
  )

-- ===== src/Handler/PairRecords.antt =====
-- handler/save_pair_record.rs, read_pair_record.rs and delete_pair_record.rs: the files of the pair
-- records. A string is the list of its bytes.
pub mod Guarded
use rusbmux.Base.{ℕ, ◌==◌, Bool, true, false, ◌||◌, ◌&&◌, Option, none, some, List, [], ◌∷◌, ◌++◌}
use rusbmux.Base.Parser.{IoErrorKind, permission_denied, not_found}
use rusbmux.Error
use rusbmux.Error.{
  Result, err, RusbmuxError, unexpected_packet, bad_command, bad_device_or_no_such_file,
}
use rusbmux.UsbMux.Kinds.{UsbMuxVersion, message_plist}
use rusbmux.UsbMux.Packet.{encode_from}
use rusbmux.Handler.{Session, send_result}
use rusbmux.Handler.Answers.{Ran, and_then, answer}

abbrev contains : ℕ → List ℕ → Bool
contains c [] = false
contains c (b ∷ bs) = (b == c) || contains c bs

-- Whether two dots stand side by side.
abbrev contains_dots : List ℕ → Bool
contains_dots [] = false
contains_dots (b ∷ []) = false
contains_dots (b ∷ c ∷ bs) = ((b == b'.') && (c == b'.')) || contains_dots (c ∷ bs)

-- The guard that stands in front of all three.
abbrev pub is_malformed : List ℕ → Bool
is_malformed id = contains b'/' id || (contains b'\\' id || contains_dots id)

abbrev pub extension : List ℕ
extension = b'.' ∷ b'p' ∷ b'l' ∷ b'i' ∷ b's' ∷ b't' ∷ []

-- The file system, and the plist values that the handlers make.
pub record Store (Value World : Type 0) : Type 0 where
  pub lockdown_path : List ℕ
  pub write_file : List ℕ → List ℕ → World → World × Result (Unit {0})
  pub read_file : List ℕ → World → Result (List ℕ)
  pub remove_file : List ℕ → World → World × Result (Unit {0})
  pub data_value : List ℕ → Value
  pub paired_value : ℕ → Value
  pub record_value : List ℕ → Value

module _ {Value World : Type 0} (x : Session Value World) (f : Store Value World) where
  abbrev pub path_of : List ℕ → List ℕ
  path_of id = f.lockdown_path ++ b'/' ∷ (id ++ extension)

  abbrev pub paired : Option ℕ → ℕ → World → Ran World
  paired none tag w = (w, Error.ok tt)
  paired (some id) tag w = answer x (f.paired_value id) tag w

  -- The guard, and what runs behind it.
  abbrev pub guarded : List ℕ → (World → Ran World) → World → Ran World
  guarded id run w = elim (is_malformed id) [ true ↦ (w, err unexpected_packet) | false ↦ run w ]

  unfoldable pub save_pair_record : List ℕ → List ℕ → Option ℕ → ℕ → World → Ran World
  save_pair_record id content device_id tag = guarded id λ w.
      and_then (f.write_file (path_of id) (x.codec.to_xml_bytes (f.data_value content)) w)
        (paired device_id tag)

  abbrev pub answer_file : ℕ → World → Result (List ℕ) → Ran World
  answer_file tag w (Error.ok bytes) = answer x (f.record_value bytes) tag w
  answer_file tag w (err e) = (w, err e)

  unfoldable pub read_pair_record : List ℕ → ℕ → World → Ran World
  read_pair_record id tag = guarded id λ w. answer_file tag w (f.read_file (path_of id) w)

  unfoldable pub delete_pair_record : List ℕ → World → Ran World
  delete_pair_record id = guarded id λ w. f.remove_file (path_of id) w

  -- The answer to an error, after which the error is returned; `denied` says whether a lack of
  -- permission is answered too.
  abbrev pub answer_error : Bool → ℕ → World → RusbmuxError → Ran World
  answer_error denied tag w unexpected_packet =
      and_then (send_result x bad_command tag w) λ w'. (w', err unexpected_packet)
  answer_error denied tag w (RusbmuxError.io not_found) =
      and_then (send_result x bad_device_or_no_such_file tag w)
        λ w'. (w', err (RusbmuxError.io not_found))
  answer_error true tag w (RusbmuxError.io permission_denied) =
      and_then (send_result x bad_device_or_no_such_file tag w)
        λ w'. (w', err (RusbmuxError.io permission_denied))
  answer_error denied tag w e = (w, err e)

  abbrev pub after_run : Bool → (World → Ran World) → ℕ → Ran World → Ran World
  after_run denied done tag (w, Error.ok u) = done w
  after_run denied done tag (w, err e) = answer_error denied tag w e

  unfoldable pub handle_save_pair_record : List ℕ → List ℕ → Option ℕ → ℕ → World → Ran World
  unfolding save_pair_record
  handle_save_pair_record id content device_id tag w =
      after_run true (send_result x Error.ResultCode.ok tag) tag
        (save_pair_record id content device_id tag w)

  unfoldable pub handle_read_pair_record : List ℕ → ℕ → World → Ran World
  unfolding read_pair_record
  handle_read_pair_record id tag w =
      after_run true (λ w'. (w', Error.ok tt)) tag (read_pair_record id tag w)

  unfoldable pub handle_delete_pair_record : List ℕ → ℕ → World → Ran World
  unfolding delete_pair_record
  handle_delete_pair_record id tag w =
      after_run false (send_result x Error.ResultCode.ok tag) tag (delete_pair_record id w)

-- ===== src/Tests/Handlers.antt =====
-- The theorems about the loop over a client's packets, at a session whose world is the bytes written.
use rusbmux.Base.{
  All, ℕ, ◌≡◌, ◌≢◌, refl, Bool, true, false, none, some, List, [], ◌∷◌, ◌++◌, arith, inl,
}
use rusbmux.Base.Parser.{not_found, io, unexpected_eof, connection_aborted}
use rusbmux.Error.{
  err, RusbmuxError, ok, MissingFields, device_id, bad_device_or_no_such_file, result_code_number,
}
use rusbmux.UsbMux.Kinds.{UsbMuxVersion, message_plist}
use rusbmux.UsbMux.Packet.{UsbMuxPacket, value, encode_from}
use rusbmux.Handler.{Session, handle_client, closes_on}
use rusbmux.Handler.PairRecords.{Store, path_of, answer_file, read_pair_record, delete_pair_record}
use rusbmux.Handler.PairRecords.Guarded.{IsNoSeparator, accepted_stays}
use rusbmux.Handler.Ending.{handle_client_ends}

abbrev lacks_device : MissingFields → Bool
lacks_device device_id = true
lacks_device _ = false

-- A plist is a list of bytes, and no plist is a request.
abbrev session : Session (List ℕ) (List ℕ)
session = record {
  codec = record { to_xml_bytes = λ v. v; from_bytes = λ bs. some bs };
  result_value = λ n. n ∷ [];
  from_value = λ v. inl lacks_device;
  write = λ bs written. (written ++ bs, ok tt);
  handle = λ request tag written. (written, ok tt);
}

abbrev packet : UsbMuxPacket (List ℕ)
packet = record {
  header = record { len = 17; version = UsbMuxVersion.plist; msg_type = message_plist; tag = 5 };
  payload = value (7 ∷ []);
}

abbrev sent : List ℕ
sent = 17 ∷ 0 ∷ 0 ∷ 0 ∷ 1 ∷ 0 ∷ 0 ∷ 0 ∷ 8 ∷ 0 ∷ 0 ∷ 0 ∷ 5 ∷ 0 ∷ 0 ∷ 0 ∷ 7 ∷ []

closes : closes_on (io unexpected_eof) ≡ true
unfolding closes_on
closes = refl

reads_again : closes_on (io connection_aborted) ≡ false
unfolding closes_on
reads_again = refl

handle_client_ends_example : handle_client session unexpected_eof 2 sent [] ≢ none
handle_client_ends_example =
    handle_client_ends session unexpected_eof 2 sent [] closes (omega arith)

abbrev answer : List ℕ
answer =
    encode_from session.codec (result_code_number bad_device_or_no_such_file ∷ [])
      UsbMuxVersion.plist message_plist 5

-- No file can be read or removed, and every write succeeds.
abbrev store : Store (List ℕ) (List ℕ)
store = record {
  lockdown_path = b'/' ∷ b'v' ∷ [];
  write_file = λ path bytes written. (written, ok tt);
  read_file = λ path written. err (RusbmuxError.io not_found);
  remove_file = λ path written. (written, err (RusbmuxError.io not_found));
  data_value = λ v. v;
  paired_value = λ n. n ∷ [];
  record_value = λ v. v;
}

abbrev udid : List ℕ
udid = b'0' ∷ b'1' ∷ b'-' ∷ b'a' ∷ []

accepted_stays_example :
    (name : List ℕ) × (path_of session store udid ≡ store.lockdown_path ++ b'/' ∷ name)
    × All IsNoSeparator name
    × (read_pair_record session store udid 5 []
        ≡ answer_file session store 5 [] (store.read_file (path_of session store udid) []))
    × (delete_pair_record session store udid [] ≡ store.remove_file (path_of session store udid) [])
accepted_stays_example = accepted_stays session store udid 5 [] refl

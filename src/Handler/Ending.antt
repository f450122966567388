-- ===== src/Handler/Ending.antt =====
-- handler/mod.rs: when the loop over a client's packets ends, and what a bad request is answered.
use rusbmux.Base.{
  ℕ, zero, suc, ◌+◌, ◌*◌, ◌≡◌, ◌≢◌, ◌≤◌, ◌<◌, refl, Bool, true, false, ◌||◌, Bool-cases, Option,
  none, some, List, [], arith, length, length-drop, inl, inr, if◌then◌else◌,
}
use rusbmux.Base.Parser.{Reply, IoErrorKind, ParseError, read_exact}
use rusbmux.Error.{
  ok, MissingFields, pair_record_id, pair_record_data, device_id, port_number, ResultCode,
  bad_command, invalid_input, bad_device_or_no_such_file, result_code_number,
}
use rusbmux.Utils.{is_disconnect}
use rusbmux.UsbMux.Header
use rusbmux.UsbMux.Kinds.{UsbMuxVersion, message_plist}
use rusbmux.UsbMux.Packet
use rusbmux.UsbMux.Packet.{UsbMuxPacket, as_plist, encode_from}
use rusbmux.UsbMux.Packet.Reading.{stated_len, from_reader-takes, from_reader-LeftBy}
use rusbmux.Handler.{
  Session, handle_client, handle_message, send_result, after_packet, after_message, closes_on,
  goes_on, Flow, request_error, code_of,
}

-- The code for a request that lacks fields.
abbrev pub code_for : (MissingFields → Bool) → ResultCode
code_for names =
    if names pair_record_id || names pair_record_data
    then invalid_input
    else if names device_id
    then bad_device_or_no_such_file
    else if names port_number
    then bad_command
    else invalid_input

module _ {Value World : Type 0} (x : Session Value World) where
  after_message-some :
      (rest : List ℕ) (w : World) (flow : Flow) (again : List ℕ → World → Option World)
      → ((w' : World) → again rest w' ≢ none)
      → after_message x rest (w, flow) again ≢ none
  after_message-some rest w flow again k = elim (Bool-cases (goes_on flow)) [
    | inl again_true ↦ λ h. k w (ground arith)
    | inr again_false ↦ λ h. ground arith
  ]

  -- A round that reads again has taken sixteen bytes.
  after_packet-some :
      (end : IoErrorKind) (s : List ℕ) (w : World) (r : Reply (UsbMuxPacket Value))
      (again : List ℕ → World → Option World)
      → closes_on (ParseError.io end) ≡ true
      → Packet.from_reader x.codec end s ≡ r
      → ((rest : List ℕ) (w' : World) → length rest + 16 ≤ length s → again rest w' ≢ none)
      → after_packet x w r again ≢ none
  unfolding closes_on
  after_packet-some end s w (Reply.ok p rest) again c e k =
      let (a, b, d) = from_reader-takes x.codec end s rest p e in
      let l = length-drop p.header.len s in
      after_message-some rest (handle_message x p w).0 (handle_message x p w).1 again
        λ w'. k rest w' (ground (arith, l))
  after_packet-some end s w (Reply.err (ParseError.io kind) rest) again c e k =
      let left = from_reader-LeftBy x.codec end s rest (ParseError.io kind) e in
      λ h. ground (arith, left)
  after_packet-some end s w (Reply.err ParseError.invalid_data rest) again c e k =
      let left = from_reader-LeftBy x.codec end s rest ParseError.invalid_data e in
      k rest w (ground (arith, left, length-drop 16 s))
  after_packet-some end s w (Reply.err ParseError.plist rest) again c e k =
      let left = from_reader-LeftBy x.codec end s rest ParseError.plist e in
      k rest w (ground (arith, left, length-drop (stated_len s) s))
  after_packet-some end s w (Reply.err ParseError.tcp_header_slice rest) again c e k =
      absurd (from_reader-LeftBy x.codec end s rest ParseError.tcp_header_slice e)
  after_packet-some end s w Reply.panic again c e k = λ h. ground arith
  after_packet-some end s w Reply.undefined again c e k = λ h. ground arith

  -- Where the client's stream ends with an error on which the loop closes, the loop ends within one
  -- round more than a sixteenth of the bytes that the client sends, whatever they are.
  pub handle_client_ends :
      (end : IoErrorKind) (n : ℕ) (s : List ℕ) (w : World)
      → closes_on (ParseError.io end) ≡ true
      → length s < 16 * n
      → handle_client x end n s w ≢ none
  unfolding handle_client
  handle_client_ends end zero s w c l = absurd (omega arith)
  handle_client_ends end (suc n) s w c l =
      after_packet-some end s w (Packet.from_reader x.codec end s) _ c refl
        λ rest w' shorter. handle_client_ends end n rest w' c (omega arith)

  -- Where it ends with any other error, `ConnectionAborted` among them, the loop never ends: no number
  -- of rounds is enough.
  pub handle_client_spins :
      (end : IoErrorKind) (n : ℕ) (w : World)
      → closes_on (ParseError.io end) ≡ false
      → handle_client x end n [] w ≡ none
  unfolding handle_client Packet.from_reader Header.from_reader read_exact
  handle_client_spins end zero w c = refl
  handle_client_spins end (suc n) w c = ground (arith, handle_client_spins end n w c)

  code_of-request_error :
      (names : MissingFields → Bool)
      → (code_of (request_error names) ≡ code_for names)
        × (is_disconnect (request_error names) ≡ false)
  unfolding is_disconnect
  code_of-request_error names = (ground arith, ground arith)

  -- Where the answer can be written, a plist that is no request is answered with the code of the first field that it lacks, in the
  -- packet's tag, and the loop goes on.
  pub bad_request_answered :
      (packet : UsbMuxPacket Value) (w w' : World) (v : Value) (names : MissingFields → Bool)
      → packet.header.msg_type ≡ message_plist
      → as_plist packet.payload ≡ some v
      → x.from_value v ≡ inl names
      → x.write
          (encode_from x.codec
            (x.codec.to_xml_bytes (x.result_value (result_code_number (code_for names))))
            UsbMuxVersion.plist
            message_plist
            packet.header.tag)
          w
        ≡ (w', ok tt)
      → ((handle_message x packet w).0 ≡ w') × (goes_on (handle_message x packet w).1 ≡ true)
  unfolding handle_message send_result
  bad_request_answered packet w w' v names t p f e =
      let (code, stays) = code_of-request_error names in
      rw (t, p, f, code, e) (refl, ground (arith, stays))

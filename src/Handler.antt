-- ===== src/Handler.antt =====
-- handler/mod.rs: the loop that reads the packets of a client, and the choice of a handler. The
-- handlers themselves, the client's stream for writing and the plist crate are parameters.
pub mod Ending
pub mod Answers
pub mod DeviceList
pub mod Listen
pub mod Connect
pub mod ReadBuid
pub mod Dispatch
pub mod PairRecords
use rusbmux.Base.{
  ℕ, zero, suc, Bool, true, false, ◌||◌, Option, none, some, List, [], ◌∷◌, ◌⊎◌, inl, inr,
}
use rusbmux.Base.Parser
use rusbmux.Base.Parser.{
  Reply, IoErrorKind, ParseError, unexpected_eof, connection_reset, connection_aborted, broken_pipe,
}
use rusbmux.Error.{
  Result, ok, err, RusbmuxError, unexpected_packet, value_not_found, MissingFields, pair_record_id,
  pair_record_data, device_id, port_number, ResultCode, bad_command, invalid_input, result_code,
  result_code_number,
}
use rusbmux.UsbMux.Kinds.{
  UsbMuxVersion, UsbMuxMsgType, message_plist, PayloadMessageType, listens, list_devices,
  list_listeners, read_buid, read_pair_record, save_pair_record, delete_pair_record, connects,
}
use rusbmux.UsbMux.Packet.{PlistCodec, UsbMuxPacket, as_plist, encode_from}
use rusbmux.UsbMux.Packet
use rusbmux.Utils.{is_disconnect}
use rusbmux.UsbMux.Request
use rusbmux.UsbMux.Request.{UsbMuxRequest}

pub data HandlerError : Type 0 where
  fatal non_fatal : RusbmuxError → Option PayloadMessageType → HandlerError

abbrev pub classify : RusbmuxError → Option PayloadMessageType → HandlerError
classify error (some connects) = fatal error (some connects)
classify error (some listens) = fatal error (some listens)
classify error request = non_fatal error request

-- `ControlFlow` or an error.
pub data Flow : Type 0 where
  continues breaks : Flow
  fails : HandlerError → Flow

-- The request of a client by its kind.
abbrev pub kind_of : UsbMuxRequest → PayloadMessageType
kind_of (Request.listen c) = listens
kind_of (Request.list_devices c) = list_devices
kind_of (Request.list_listeners c) = list_listeners
kind_of (Request.read_buid c) = read_buid
kind_of (Request.read_pair_record c i) = read_pair_record
kind_of (Request.save_pair_record c i d n) = save_pair_record
kind_of (Request.delete_pair_record c i) = delete_pair_record
kind_of (Request.connect c d p) = connects

-- Connect and Listen hand the client on; the others keep it.
abbrev pub flow_after : PayloadMessageType → Flow
flow_after connects = breaks
flow_after listens = breaks
flow_after _ = continues

-- Whether the loop goes on after a message.
abbrev pub goes_on : Flow → Bool
goes_on continues = true
goes_on breaks = false
goes_on (fails (fatal e request)) = false
goes_on (fails (non_fatal e request)) = elim (is_disconnect e) [ true ↦ false | false ↦ true ]

-- The errors on which the loop ends; on every other error it reads again.
unfoldable pub closes_on : ParseError → Bool
closes_on (ParseError.io unexpected_eof) = true
closes_on (ParseError.io connection_reset) = true
closes_on (ParseError.io broken_pipe) = true
closes_on _ = false

-- The first of the four fields that the error's text names.
abbrev pub first_missing : List MissingFields → (MissingFields → Bool) → RusbmuxError
first_missing [] names = RusbmuxError.parse ParseError.plist
first_missing (f ∷ fs) names = elim (names f) [
  | true ↦ value_not_found f
  | false ↦ first_missing fs names
]

abbrev pub request_error : (MissingFields → Bool) → RusbmuxError
request_error = first_missing (pair_record_id ∷ pair_record_data ∷ device_id ∷ port_number ∷ [])

abbrev pub code_of : RusbmuxError → ResultCode
code_of (value_not_found field) = result_code field
code_of _ = invalid_input

-- What a session uses, over a state `World`: the handlers, the writes to the client
-- (`write_all`), the dictionary of a result, and the derived parser of requests. The parser's error
-- says for each field whether its text names the field as missing.
pub record Session (Value World : Type 0) : Type 0 where
  pub codec : PlistCodec Value
  pub result_value : ℕ → Value
  pub from_value : Value → (MissingFields → Bool) ⊎ UsbMuxRequest
  pub write : List ℕ → World → World × Result (Unit {0})
  pub handle : UsbMuxRequest → ℕ → World → World × Result (Unit {0})

module _ {Value World : Type 0} (x : Session Value World) where
  unfoldable pub send_result : ResultCode → ℕ → World → World × Result (Unit {0})
  send_result code tag = x.write (
      encode_from x.codec (x.codec.to_xml_bytes (x.result_value (result_code_number code)))
        UsbMuxVersion.plist message_plist tag)

  -- The answer is sent, and the flow is `next` if that succeeds.
  abbrev pub or_failed : Option PayloadMessageType → Flow → World × Result (Unit {0}) → World × Flow
  or_failed request next (w, ok u) = (w, next)
  or_failed request next (w, err e) = (w, fails (classify e request))

  abbrev pub handle_request : ℕ → World → (MissingFields → Bool) ⊎ UsbMuxRequest → World × Flow
  handle_request tag w (inl names) =
      let e = request_error names in
      or_failed none (fails (classify e none)) (send_result (code_of e) tag w)
  handle_request tag w (inr request) =
      or_failed (some (kind_of request)) (flow_after (kind_of request)) (x.handle request tag w)

  abbrev pub handle_plist : ℕ → World → Option Value → World × Flow
  handle_plist tag w none = (w, fails (classify unexpected_packet none))
  handle_plist tag w (some payload) = handle_request tag w (x.from_value payload)

  abbrev pub handle_typed : UsbMuxMsgType → ℕ → World → Option Value → World × Flow
  handle_typed message_plist tag w payload = handle_plist tag w payload
  handle_typed _ tag w payload = or_failed none continues (send_result bad_command tag w)

  unfoldable pub handle_message : UsbMuxPacket Value → World → World × Flow
  unfolding send_result
  handle_message packet w =
      handle_typed packet.header.msg_type packet.header.tag w (as_plist packet.payload)

  abbrev pub after_message : List ℕ → World × Flow → (List ℕ → World → Option World) → Option World
  after_message rest (w, flow) again = elim (goes_on flow) [ true ↦ again rest w | false ↦ some w ]

  abbrev pub after_packet :
      World → Reply (UsbMuxPacket Value) → (List ℕ → World → Option World) → Option World
  after_packet w (Reply.ok packet rest) again = after_message rest (handle_message packet w) again
  after_packet w (Reply.err e rest) again = elim (closes_on e) [
    | true ↦ some w
    | false ↦ again rest w
  ]
  after_packet w _ again = some w

  -- The rounds on the bytes that the client sends before its stream fails with `end`; `none` where the
  -- fuel has run out. `from_reader` has no panic, so the last clause above is not reached.
  pub handle_client : IoErrorKind → ℕ → List ℕ → World → Option World
  handle_client end zero s w = none
  handle_client end (suc n) s w =
      after_packet w (Packet.from_reader x.codec end s) λ rest w'. handle_client end n rest w'

-- ===== src/Tests/Clients.antt =====
-- The theorems about the packets of clients, at packets of a few bytes. A plist value is a list of
-- bytes here, and its document the same bytes.
use rusbmux.Base.{ℕ, ◌≡◌, refl, some, List, [], ◌∷◌, ◌++◌, arith}
use rusbmux.Base.Parser.{ok, err, invalid_data, unexpected_eof, read_exact}
use rusbmux.UsbMux.Kinds.{UsbMuxVersion, message_plist, version_try_from, msg_type_try_from}
use rusbmux.UsbMux.Header
use rusbmux.UsbMux.Header.{UsbMuxHeader}
use rusbmux.UsbMux.Packet.{PlistCodec, UsbMuxPacket, value, from_reader, encode}
use rusbmux.UsbMux.Packet.RoundTrip.{client_packet_round_trip}

abbrev codec : PlistCodec (List ℕ)
codec = record { to_xml_bytes = λ v. v; from_bytes = λ bs. some bs }

back : (v : List ℕ) → codec.from_bytes (codec.to_xml_bytes v) ≡ some v
back v = refl

abbrev header : UsbMuxHeader
header = record { len = 19; version = UsbMuxVersion.plist; msg_type = message_plist; tag = 70000 }

abbrev packet : UsbMuxPacket (List ℕ)
packet = record { header = header; payload = value (1 ∷ 2 ∷ 3 ∷ []) }

packet_back : from_reader codec unexpected_eof (encode codec packet ++ 9 ∷ []) ≡ ok packet (9 ∷ [])
packet_back =
    client_packet_round_trip codec back unexpected_eof packet (9 ∷ []) tt refl (omega arith)
      (omega arith)

client_packet_round_trip_example :
    from_reader codec unexpected_eof (encode codec packet ++ 9 ∷ []) ≡ ok packet (9 ∷ [])
client_packet_round_trip_example =
    client_packet_round_trip codec back unexpected_eof packet (9 ∷ []) tt refl (omega arith)
      (omega arith)

-- Sixteen bytes whose message type is 9, and a payload byte.
abbrev unknown_type : List ℕ
unknown_type = 17 ∷ 0 ∷ 0 ∷ 0 ∷ 1 ∷ 0 ∷ 0 ∷ 0 ∷ 9 ∷ 0 ∷ 0 ∷ 0 ∷ 0 ∷ 0 ∷ 0 ∷ 0 ∷ 5 ∷ []

unknown_type-read : from_reader codec unexpected_eof unknown_type ≡ err invalid_data (5 ∷ [])
unfolding from_reader Header.from_reader read_exact msg_type_try_from version_try_from
unknown_type-read = refl

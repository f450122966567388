-- ===== src/Tests/Packets.antt =====
-- The theorems about device packets, at packets of a few bytes.
use rusbmux.Base.{ℕ, ◌≡◌, ◌≢◌, refl, none, some, List, [], ◌∷◌, ◌++◌, arith, inl}
use rusbmux.Base.Parser.{ok, unexpected_eof}
use rusbmux.DeviceMux.Protocol.{version, tcp}
use rusbmux.DeviceMux.Protocol
use rusbmux.DeviceMux.Header.{v2}
use rusbmux.DeviceMux.Header.Reading.{Names}
use rusbmux.DeviceMux.Payload
use rusbmux.DeviceMux.Packet.{UsbDevicePacket, from_slice, from_reader, encode}
use rusbmux.DeviceMux.Packet.Parts.{IsPacket}
use rusbmux.DeviceMux.Packet.RoundTrip.{from_slice-encode_packet, from_reader-encode_packet}
use rusbmux.DeviceMux.Packet.Reading.{Framed, from_reader-Framed}
use rusbmux.DeviceMux.Builder.{builder, payload_bytes, build_bytes, ack}
use rusbmux.DeviceMux.Builder.Built.{
  TcpArguments, InRange, with_tcp, Built, some_bytes, built_read_back,
}
use rusbmux.Tests.Codec.{plain, plain-ExternLaws}

abbrev arguments : TcpArguments
arguments = record {
  send_seq = 1;
  recv_seq = 0;
  source_port = 5;
  destination_port = 62078;
  sequence_number = 300;
  acknowledgment_number = 70000;
  flags = ack;
}

arguments-InRange : InRange arguments
arguments-InRange = record {
  send_seq_fits = omega arith;
  recv_seq_fits = omega arith;
  source_port_fits = omega arith;
  destination_port_fits = omega arith;
  sequence_number_fits = omega arith;
  acknowledgment_number_fits = omega arith;
}

abbrev content : List ℕ
content = 1 ∷ 2 ∷ 3 ∷ []

abbrev data_packet : UsbDevicePacket
data_packet = build_bytes (with_tcp plain (payload_bytes builder content) arguments)

data_packet-Built : Built plain data_packet
data_packet-Built = some_bytes arguments content arguments-InRange (omega arith)

built_read_back_example :
    (from_slice plain (encode plain data_packet ++ 9 ∷ []) ≡ ok data_packet (9 ∷ []))
    × (from_reader plain unexpected_eof (encode plain data_packet ++ 9 ∷ [])
        ≡ ok data_packet (9 ∷ []))
built_read_back_example =
    built_read_back plain plain-ExternLaws unexpected_eof data_packet (9 ∷ []) data_packet-Built

-- A control packet with a code and a text.
abbrev error_packet : UsbDevicePacket
error_packet = record {
  header = v2 (record { protocol = 1; length = 19; magic = 7; send_seq = 65535; recv_seq = 2 });
  tcp_hdr = none;
  payload = Payload.error (some 3) (some (b'n' ∷ b'o' ∷ []));
}

error_packet-IsPacket : IsPacket plain error_packet
error_packet-IsPacket = record {
  header_fits = (inl refl, omega arith, omega arith, omega arith, omega arith);
  agrees = (refl, refl, (omega arith, refl));
}

from_slice-encode_packet_example :
    from_slice plain (encode plain error_packet ++ content) ≡ ok error_packet content
from_slice-encode_packet_example =
    from_slice-encode_packet plain plain-ExternLaws error_packet content error_packet-IsPacket

from_reader-encode_packet_example :
    from_reader plain unexpected_eof (encode plain error_packet ++ content)
    ≡ ok error_packet content
from_reader-encode_packet_example =
    from_reader-encode_packet plain plain-ExternLaws unexpected_eof error_packet content
      error_packet-IsPacket tt

from_reader-Framed_example :
    Framed plain (encode plain error_packet ++ content) error_packet content
    × (from_slice plain (encode plain error_packet ++ content) ≡ ok error_packet content)
from_reader-Framed_example =
    from_reader-Framed plain plain-ExternLaws unexpected_eof (encode plain error_packet ++ content)
      content error_packet from_reader-encode_packet_example

-- Protocol 6, and five bytes of the header behind it.
abbrev truncated : List ℕ
truncated = 0 ∷ 0 ∷ 0 ∷ 6 ∷ 0 ∷ 0 ∷ 0 ∷ 40 ∷ 1 ∷ []

truncated-Names : Names tcp truncated
unfolding Protocol.try_from
truncated-Names = refl

-- A version packet whose payload has one byte.
abbrev short_version : List ℕ
short_version = 0 ∷ 0 ∷ 0 ∷ 0 ∷ 0 ∷ 0 ∷ 0 ∷ 9 ∷ 2 ∷ []

short_version-Names : Names version short_version
unfolding Protocol.try_from
short_version-Names = refl

short_version-length : ◌≢◌ {A = ℕ} 9 20
short_version-length = λ e. omega arith

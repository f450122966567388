-- ===== src/Device/Opening/Exchange.antt =====
-- device/usb.rs: that the exchange which opens a device ends, and what it makes.
use rusbmux.Base.{
  ℕ, zero, suc, ◌-◌, ◌*◌, ◌≡◌, ◌≢◌, ◌≤◌, ◌<◌, refl, All, Bool-cases, ltb, Option, none, some, List,
  [], ◌∷◌, ◌++◌, arith, length, inl, inr, append_assoc, ap, ◌∙◌, Bool, false, true,
}
use rusbmux.Base.Parser.{Leaves, Reply, ok, err, panic, undefined, IoErrorKind}
use rusbmux.Extern.{Extern, ExternLaws}
use rusbmux.DeviceMux.Payload.{UsbDevicePacketVersion, as_version}
use rusbmux.DeviceMux.Packet.{UsbDevicePacket, from_reader, encode}
use rusbmux.DeviceMux.Packet.Parts.{IsPacket, encode_parts}
use rusbmux.DeviceMux.Packet.RoundTrip.{NoOptions, from_reader-encode_packet}
use rusbmux.DeviceMux.Packet.Leaving.{packet-Leaves, packet-short}
use rusbmux.Backend.{AnyDeviceInfo}
use rusbmux.Device.{opened}
use rusbmux.DeviceMux.Builder.{build_version, build_setup}
use rusbmux.Device.Writer.{Action, wrote, flushed, Endpoint}
use rusbmux.Device.Opening.{
  version_packet, setup_packet, version_loop, version_round, version_or, new_device, after_hello,
  write_flushed,
}

-- The bytes of the two packets that are sent: the protocol, the length, and the body.
abbrev pub version_bytes : List ℕ
version_bytes = 0 ∷ 0 ∷ 0 ∷ 0 ∷ 0 ∷ 0 ∷ 0 ∷ 20 ∷ 0 ∷ 0 ∷ 0 ∷ 2 ∷ 0 ∷ 0 ∷ 0 ∷ 0 ∷ 0 ∷ 0 ∷ 0 ∷ 0 ∷ []

-- In a version 2 header the magic number and the sequence numbers follow.
abbrev pub setup_bytes : List ℕ
setup_bytes = 0 ∷ 0 ∷ 0 ∷ 2 ∷ 0 ∷ 0 ∷ 0 ∷ 17 ∷ 254 ∷ 237 ∷ 250 ∷ 206 ∷ 0 ∷ 0 ∷ 255 ∷ 255 ∷ 7 ∷ []

version_packet-bytes : (x : Extern) → encode x version_packet ≡ version_bytes
unfolding version_packet build_version
version_packet-bytes x = encode_parts x version_packet

setup_packet-bytes : (x : Extern) → encode x setup_packet ≡ setup_bytes
unfolding setup_packet build_setup
setup_packet-bytes x = encode_parts x setup_packet

module _ (x : Extern) (end : IoErrorKind) where
  version_or-some :
      (v : Option UsbDevicePacketVersion) (rest : List ℕ)
      (again : List ℕ → Option (Reply UsbDevicePacketVersion))
      → again rest ≢ none
      → version_or v rest again ≢ none
  version_or-some none rest again k = k
  version_or-some (some v) rest again k = λ h. ground arith

  version_round-some :
      (n : ℕ) (r : Reply UsbDevicePacket) (again : List ℕ → Option (Reply UsbDevicePacketVersion))
      → Leaves n r
      → ((rest : List ℕ) → length rest ≤ n → again rest ≢ none)
      → version_round r again ≢ none
  version_round-some n (ok p rest) again l k =
      version_or-some (as_version p.payload) rest again (k rest l)
  version_round-some n (err e rest) again l k = λ h. ground arith
  version_round-some n panic again l k = λ h. ground arith
  version_round-some n undefined again l k = λ h. ground arith

  version_loop-some : (n : ℕ) (s : List ℕ) → length s < 8 * n → version_loop x end n s ≢ none
  unfolding version_loop
  version_loop-some zero s l = absurd (omega arith)
  version_loop-some (suc n) s l = elim (Bool-cases (ltb (length s) 8)) [
    | inl short ↦ λ h. ground (arith, packet-short x end s (ground arith))
    | inr long ↦
        version_round-some (length s - 8) (from_reader x end s) _
          (packet-Leaves x end (length s - 8) s (ground arith))
          λ rest shorter. version_loop-some n rest (ground arith)
  ]

  after_hello-some :
      (id : ℕ) (info : AnyDeviceInfo) (n : ℕ) (answers : List Action → List ℕ)
      (hello : Endpoint × Bool)
      → length (answers hello.0.log) < 8 * n
      → after_hello x end id info n answers hello ≢ none
  after_hello-some id info n answers (e, false) l = λ h. ground arith
  after_hello-some id info n answers (e, true) l =
      λ h. ground (arith, version_loop-some n (answers e.log) l)

  -- The exchange takes no more rounds than one more than an eighth of the bytes that the device sends once
  -- the version packet has been written.
  pub new_device_ends :
      (id : ℕ) (info : AnyDeviceInfo) (n : ℕ) (answers : List Action → List ℕ) (e : Endpoint)
      → length (answers (write_flushed (encode x version_packet) e).0.log) < 8 * n
      → new_device x end id info n answers e ≢ none
  unfolding new_device
  new_device_ends id info n answers e l =
      after_hello-some id info n answers (write_flushed (encode x version_packet) e) l

module _ (x : Extern) where
  -- The packets that may come before the version.
  abbrev pub IsOther : UsbDevicePacket → Type 0
  IsOther p = IsPacket x p × NoOptions x p.tcp_hdr × (as_version p.payload ≡ none)

  -- Packets one after the other, and then the rest.
  pub stream : List UsbDevicePacket → List ℕ → List ℕ
  stream [] s = s
  stream (p ∷ ps) s = encode x p ++ stream ps s

module _ (x : Extern) (laws : ExternLaws x) (end : IoErrorKind) where
  version_loop-stream :
      (ps : List UsbDevicePacket) (p : UsbDevicePacket) (v : UsbDevicePacketVersion) (rest : List ℕ)
      → All (IsOther x) ps
      → IsPacket x p
      → NoOptions x p.tcp_hdr
      → as_version p.payload ≡ some v
      → version_loop x end (suc (length ps)) (stream x (ps ++ p ∷ []) rest) ≡ some (ok v rest)
  unfolding version_loop stream
  version_loop-stream [] p v rest others w o is =
      rw (from_reader-encode_packet x laws end p rest w o, is) refl
  version_loop-stream (q ∷ qs) p v rest ((a, b, c), others) w o is =
      rw (from_reader-encode_packet x laws end q (stream x (qs ++ p ∷ []) rest) a b, c)
        (version_loop-stream qs p v rest others w o is)

  -- Where the endpoint takes every write and flush, a device that answers the version packet, once it is
  -- flushed, with well-formed packets, none with TCP options, the last a version packet and no other one, is
  -- opened with that version, with send number and source port 1, receive number 0 and no connections. The version packet, of protocol 0 with version 2.0, has been written and flushed
  -- before the answer is read, and after it the setup packet, of protocol 2 with the one byte 7 and the
  -- sequence numbers 0 and 65535, and nothing else; what the device sent behind its version is left for the
  -- reader loop.
  pub new_device-opened :
      (id : ℕ) (info : AnyDeviceInfo) (ps : List UsbDevicePacket) (p : UsbDevicePacket)
      (v : UsbDevicePacketVersion) (rest : List ℕ) (answers : List Action → List ℕ) (e : Endpoint)
      → All (IsOther x) ps
      → IsPacket x p
      → NoOptions x p.tcp_hdr
      → as_version p.payload ≡ some v
      → e.outcomes ≡ []
      → answers (e.log ++ wrote version_bytes ∷ flushed ∷ []) ≡ stream x (ps ++ p ∷ []) rest
      → new_device x end id info (suc (length ps)) answers e
        ≡ some (
          record e {
            log = e.log ++ wrote version_bytes ∷ flushed ∷ wrote setup_bytes ∷ flushed ∷ [];
          },
          ok
              (record {
                id = id;
                info = info;
                send_seq = 1;
                recv_seq = 0;
                next_source_port = 1;
                version = v;
                router = record { conns = [] };
                conns = [];
                w_tx = record { queue = []; disconnected = false };
                dropped = false;
                cancelled = false;
                disconnected_tx = false;
              })
              rest,
        )
  unfolding new_device
  new_device-opened id info ps p v rest answers e others w o is out answer =
      let hello = append_assoc e.log (wrote version_bytes ∷ []) (flushed ∷ []) in
      rw
        (
          version_packet-bytes x,
          out,
          hello,
          answer,
          version_loop-stream ps p v rest others w o is,
          setup_packet-bytes x,
        )
        (ap (λ log. some (record e { log = log; outcomes = [] }, ok (opened id info v) rest))
          (append_assoc (e.log ++ wrote version_bytes ∷ flushed ∷ []) (wrote setup_bytes ∷ [])
              (flushed ∷ [])
            ∙ append_assoc e.log (wrote version_bytes ∷ flushed ∷ [])
                (wrote setup_bytes ∷ flushed ∷ [])))

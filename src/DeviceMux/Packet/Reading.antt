-- ===== src/DeviceMux/Packet/Reading.antt =====
-- parser/device_mux/mod.rs: what the two packet readers do on any input.
use rusbmux.Base.{
  ℕ, ◌+◌, ◌-◌, ◌≡◌, ◌≤◌, refl, sym, ◌∙◌, ap, Bool, true, false, Option, some, List, [], arith, take,
  drop, length, leb, inl, inr, Option-cases, Bool-cases, drop-drop, length-drop, length-take,
  length-append, take-append-drop, nil_of_length, ◌&&◌,
}
use rusbmux.Base.Parser.{ok, IoErrorKind, advance, read_exact, >>=-eq-ok}
use rusbmux.Extern.{Extern, ExternLaws, TcpHeader}
use rusbmux.DeviceMux.Protocol.{UsbDevicePacketProtocol, version, control, setup, tcp, is_tcp}
use rusbmux.DeviceMux.Header.Reading.{
  IsHeaderOf, header_at, from_reader-IsHeaderOf, IsHeaderOf-from_slice, IsHeaderOf-get_protocol,
}
use rusbmux.DeviceMux.Header
use rusbmux.DeviceMux.Header.{UsbDevicePacketHeader}
use rusbmux.DeviceMux.Payload
use rusbmux.DeviceMux.Payload.{UsbDevicePacketPayload, decode_version}
use rusbmux.DeviceMux.Packet.{
  UsbDevicePacket, from_slice, slice_payload, slice_tcp_hdr, from_reader, read_payload,
  read_tcp_hdr, total_header_len, tcp_hdr_len,
}

module _ (x : Extern) where
  decode-ok :
      (bs : List ℕ) (p : UsbDevicePacketProtocol) (s rest : List ℕ) (pay : UsbDevicePacketPayload)
      → Payload.decode x bs p s ≡ ok pay rest
      → (rest ≡ s) × ((t : List ℕ) → Payload.decode x bs p t ≡ ok pay t)
  unfolding decode_version
  decode-ok bs version s rest pay e = (ground arith, λ t. ground arith)
  decode-ok bs control s rest pay e = (ground arith, λ t. ground arith)
  decode-ok bs setup s rest pay e = (ground arith, λ t. ground arith)
  decode-ok bs tcp s rest pay e = (ground arith, λ t. ground arith)

  -- `q` has the header `h` and the TCP header `t`, and its payload is what the header's length leaves.
  pub record PayloadRead (h : UsbDevicePacketHeader) (t : Option TcpHeader) (s : List ℕ)
      (q : UsbDevicePacket) (rest : List ℕ) : Type 0 where
    pub same_header : q.header ≡ h
    pub same_tcp_hdr : q.tcp_hdr ≡ t
    pub headers_fit : total_header_len x h t ≤ Header.get_length h
    pub payload_fits : Header.get_length h - total_header_len x h t ≤ length s
    pub remains : rest ≡ drop (Header.get_length h - total_header_len x h t) s

  read_payload-PayloadRead :
      (end : IoErrorKind) (h : UsbDevicePacketHeader) (p : UsbDevicePacketProtocol)
      (t : Option TcpHeader) (s : List ℕ) (q : UsbDevicePacket) (rest : List ℕ)
      → read_payload x end h p t s ≡ ok q rest
      → PayloadRead h t s q rest × (slice_payload x h p t s ≡ ok q rest)
  unfolding read_payload slice_payload read_exact advance decode_version
  read_payload-PayloadRead end h version t s q rest e = ground arith
  read_payload-PayloadRead end h control t s q rest e = ground arith
  read_payload-PayloadRead end h setup t s q rest e = ground arith
  read_payload-PayloadRead end h tcp t s q rest e = ground arith

  slice_payload-PayloadRead :
      (end : IoErrorKind) (h : UsbDevicePacketHeader) (p : UsbDevicePacketProtocol)
      (t : Option TcpHeader) (s : List ℕ) (q : UsbDevicePacket) (rest : List ℕ)
      → slice_payload x h p t s ≡ ok q rest
      → PayloadRead h t s q rest × (read_payload x end h p t s ≡ ok q rest)
  unfolding read_payload slice_payload read_exact advance decode_version
  slice_payload-PayloadRead end h version t s q rest e = ground arith
  slice_payload-PayloadRead end h control t s q rest e = ground arith
  slice_payload-PayloadRead end h setup t s q rest e = ground arith
  slice_payload-PayloadRead end h tcp t s q rest e = ground arith

  tcp_implies_v2 :
      (p : UsbDevicePacketProtocol) (s : List ℕ)
      → (is_tcp p && Header.is_v2 (header_at p s)) ≡ is_tcp p
  tcp_implies_v2 version s = refl
  tcp_implies_v2 control s = refl
  tcp_implies_v2 setup s = refl
  tcp_implies_v2 tcp s = refl

  -- `t` is what the next bytes of `s` hold where the packet has a TCP header.
  pub record TcpRead (s : List ℕ) (t : Option TcpHeader) (rest : List ℕ) : Type 0 where
    pub fits : tcp_hdr_len x t ≤ length s
    pub remains : rest ≡ drop (tcp_hdr_len x t) s

  -- A packet takes as many bytes of the stream as its header says, and no fewer than its headers.
  pub record Framed (s : List ℕ) (q : UsbDevicePacket) (rest : List ℕ) : Type 0 where
    pub headers_fit : total_header_len x q.header q.tcp_hdr ≤ Header.get_length q.header
    pub fits : Header.get_length q.header ≤ length s
    pub remains : rest ≡ drop (Header.get_length q.header) s

module _ (x : Extern) (laws : ExternLaws x) where
  twenty :
      (s r : List ℕ) (h : TcpHeader)
      → 20 ≤ length s
      → x.tcp_from_slice (take 20 s) ≡ some (h, r)
      → (x.header_len h ≡ 20) × (r ≡ [])
  twenty s r h l e =
      let (front, split, len) = laws.from_slice_takes (take 20 s) r h e in
      let total : length front + length r ≡ 20 =
        omega (arith, sym (length-append front r), ap length split, length-take 20 s) in
      (omega (arith, laws.min_header_len h), nil_of_length r (omega (arith, laws.min_header_len h)))

  read_tcp_hdr-TcpRead :
      (end : IoErrorKind) (b : Bool) (s : List ℕ) (t : Option TcpHeader) (rest : List ℕ)
      → read_tcp_hdr x end b s ≡ ok t rest
      → TcpRead x s t rest × (slice_tcp_hdr x b s ≡ ok t rest)
  unfolding read_exact
  read_tcp_hdr-TcpRead end false s t rest e = ground arith
  read_tcp_hdr-TcpRead end true s t rest e = elim (Bool-cases (leb 20 (length s))) [
    | inr short ↦ absurd (ground arith)
    | inl long ↦ elim (Option-cases (x.tcp_from_slice (take 20 s))) [
      | inl bad ↦ absurd (ground arith)
      | inr ((h, r), good) ↦
          let (len, nil) = twenty s r h (ground arith) good in
          ground (
            arith,
            len,
            nil,
            take-append-drop 20 s,
            laws.from_slice_append (take 20 s) r (drop 20 s) h good,
          )
    ]
  ]

  -- The three stages of a reader, put together.
  Framed-stages :
      (s s1 s2 rest : List ℕ) (h : UsbDevicePacketHeader) (p : UsbDevicePacketProtocol)
      (t : Option TcpHeader) (q : UsbDevicePacket)
      → IsHeaderOf s h s1 p
      → TcpRead x s1 t s2
      → PayloadRead x h t s2 q rest
      → Framed x s q rest
  Framed-stages s s1 s2 rest h p t q a b c =
      let n = Header.get_length h - total_header_len x h t in
      let l1 = length-drop (Header.size h) s in
      let l2 = length-drop (tcp_hdr_len x t) s1 in
      let d1 = drop-drop (Header.size h) (tcp_hdr_len x t) s in
      let d2 = drop-drop (total_header_len x h t) n s in
      ground (arith, l1, l2, d1, d2, a.fits, a.remains)

  v2_if_tcp :
      (s s1 : List ℕ) (h : UsbDevicePacketHeader) (p : UsbDevicePacketProtocol)
      → IsHeaderOf s h s1 p
      → (is_tcp p && Header.is_v2 h) ≡ is_tcp p
  v2_if_tcp s s1 h p v = ap (λ k. is_tcp p && Header.is_v2 k) v.is_header ∙ (tcp_implies_v2 x p s)

  from_slice-stages :
      (s s1 s2 rest : List ℕ) (h : UsbDevicePacketHeader) (p : UsbDevicePacketProtocol)
      (t : Option TcpHeader) (q : UsbDevicePacket)
      → IsHeaderOf s h s1 p
      → slice_tcp_hdr x (is_tcp p) s1 ≡ ok t s2
      → slice_payload x h p t s2 ≡ ok q rest
      → from_slice x s ≡ ok q rest
  unfolding from_slice
  from_slice-stages s s1 s2 rest h p t q v e f =
      rw
        (
          IsHeaderOf-from_slice s h s1 p v,
          from_slice,
          IsHeaderOf-get_protocol s h s1 p s1 v,
          v2_if_tcp s s1 h p v,
          e,
        )
        f

  -- A successful `from_reader` takes exactly the bytes that the header counts, and `from_slice` reads
  -- the same packet from them.
  pub from_reader-Framed :
      (end : IoErrorKind) (s rest : List ℕ) (q : UsbDevicePacket)
      → from_reader x end s ≡ ok q rest
      → Framed x s q rest × (from_slice x s ≡ ok q rest)
  unfolding from_reader from_slice
  from_reader-Framed end s rest q e =
      let (h, s1, e1, k1) = >>=-eq-ok (Header.from_reader end) _ s rest e in
      let (p, v) = from_reader-IsHeaderOf end s h s1 e1 in
      let k2 = rw (IsHeaderOf-get_protocol s h s1 p s1 v) at k1 in
      let (t, s2, e3, k3) = >>=-eq-ok (read_tcp_hdr x end (is_tcp p)) _ s1 rest k2 in
      let (b, f3) = read_tcp_hdr-TcpRead end (is_tcp p) s1 t s2 e3 in
      let (c, f4) = read_payload-PayloadRead x end h p t s2 q rest k3 in
      (Framed-stages s s1 s2 rest h p t q v b c, from_slice-stages s s1 s2 rest h p t q v f3 f4)

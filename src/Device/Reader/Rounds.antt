-- ===== src/Device/Reader/Rounds.antt =====
-- device/usb.rs: that the reader loop ends with the stream, and what a round does with a packet.
use rusbmux.Base.{
  ℕ, zero, suc, ◌+◌, ◌-◌, ◌≡◌, ◌≤◌, ◌<◌, refl, Bool, true, false, List, arith, length, inl, inr,
  Bool-cases, ltb, ◌*◌,
}
use rusbmux.Base.Parser.{Leaves, Reply, ok, err, panic, undefined, IoErrorKind, io}
use rusbmux.Extern.{Extern}
use rusbmux.DeviceMux.Packet
use rusbmux.DeviceMux.Packet.{UsbDevicePacket}
use rusbmux.DeviceMux.Packet.Leaving.{packet-Leaves, packet-short}
use rusbmux.Device.{UsbDevice, increment_recv_seq}
use rusbmux.Device.Reader.{
  Round, next, disconnected, waits, stuck, panicked, after_read, handle, is_rst, reader_round,
  reader_loop, after_round,
}

-- A round that ends the loop, or stops it.
abbrev pub IsLast : Round → Type 0
IsLast (next d s) = ⊥
IsLast _ = Unit

handle-shorter :
    (n : ℕ) (d d' : UsbDevice) (s s' : List ℕ) (p : UsbDevicePacket) (rst : Bool)
    → length s ≤ n
    → handle d s p rst ≡ next d' s'
    → length s' ≤ n
handle-shorter n d d' s s' p true l e = ground arith
handle-shorter n d d' s s' p false l e = ground arith

after_read-shorter :
    (n : ℕ) (d d' : UsbDevice) (r : Reply UsbDevicePacket) (s' : List ℕ)
    → Leaves n r
    → after_read d r ≡ next d' s'
    → length s' ≤ n
after_read-shorter n d d' (ok p rest) s' l e =
    handle-shorter n (increment_recv_seq d) d' rest s' p (is_rst p.tcp_hdr) l e
after_read-shorter n d d' (err (io k) rest) s' l e = ground arith
after_read-shorter n d d' (err c rest) s' l e = ground arith
after_read-shorter n d d' panic s' l e = ground arith
after_read-shorter n d d' undefined s' l e = ground arith

module _ (x : Extern) (end : IoErrorKind) where
  reader_round-shorter :
      (d d' : UsbDevice) (s s' : List ℕ)
      → reader_round x end d s ≡ next d' s'
      → length s' + 8 ≤ length s
  unfolding reader_round
  reader_round-shorter d d' s s' e = elim (Bool-cases (ltb (length s) 8)) [
    | inl short ↦ absurd (ground (arith, packet-short x end s (ground arith)))
    | inr long ↦
        let n = length s - 8 in
        let le =
          after_read-shorter n d d' (Packet.from_reader x end s) s'
            (packet-Leaves x end n s (ground arith)) e in
        ground (arith, le)
  ]

  after_round-IsLast :
      (n : ℕ) (d : UsbDevice) (s : List ℕ) (r : Round)
      → reader_round x end d s ≡ r
      → ((d' : UsbDevice) (s' : List ℕ)
          → length s' + 8 ≤ length s
          → IsLast (reader_loop x end n d' s'))
      → IsLast (after_round r λ d' s'. reader_loop x end n d' s')
  after_round-IsLast n d s (next d' s') e k = k d' s' (reader_round-shorter d d' s s' e)
  after_round-IsLast n d s (disconnected o) e k = tt
  after_round-IsLast n d s (waits d' s' p) e k = tt
  after_round-IsLast n d s stuck e k = tt
  after_round-IsLast n d s panicked e k = tt

  -- Every round that goes on has taken eight bytes or more, so that the loop comes to an end, or stops
  -- in the router or in a panic, within one round more than an eighth of the bytes that are left.
  pub reader_loop_ends :
      (n : ℕ) (d : UsbDevice) (s : List ℕ) → length s < 8 * n → IsLast (reader_loop x end n d s)
  unfolding reader_loop
  reader_loop_ends zero d s l = absurd (omega arith)
  reader_loop_ends (suc n) d s l =
      after_round-IsLast n d s (reader_round x end d s) refl
        λ d' s' shorter. reader_loop_ends n d' s' (omega arith)

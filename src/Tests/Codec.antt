-- ===== src/Tests/Codec.antt =====
-- A codec of TCP headers with no options, at which the theorems about any codec are tried.
use rusbmux.Base.{
  ℕ, zero, suc, ◌+◌, ◌*◌, ◌/◌, ◌%◌, ◌^◌, ◌≡◌, ◌≤◌, ◌<◌, refl, ap, Bool, true, false, Option, none,
  some, List, [], ◌∷◌, ◌++◌, arith, length, take, drop, leb, ◌==◌, if◌then◌else◌, take-append-drop,
  length-take, length-append,
}
use rusbmux.Base.Words.{be16, be32, be16_at, be32_at, byte_at}
use rusbmux.Extern.{TcpHeader, Extern, ExternLaws, IsTcpHeader}

abbrev bit : Bool → ℕ
bit true = 1
bit false = 0

abbrev flag_bits : TcpHeader → ℕ
flag_bits h = bit h.syn * 2 + bit h.rst * 4 + bit h.ack * 16

abbrev is_nil : List ℕ → Bool
is_nil [] = true
is_nil (x ∷ xs) = false

abbrev twenty_bytes : TcpHeader → List ℕ
twenty_bytes h = be16 h.source_port (
    be16 h.destination_port (
      be32 h.sequence_number (
        be32 h.acknowledgment_number (80 ∷ flag_bits h ∷ be16 h.window_size (0 ∷ 0 ∷ 0 ∷ 0 ∷ [])))))

abbrev parse : List ℕ → TcpHeader
parse bs = record {
  source_port = be16_at bs 0;
  destination_port = be16_at bs 2;
  sequence_number = be32_at bs 4;
  acknowledgment_number = be32_at bs 8;
  window_size = be16_at bs 14;
  ack = byte_at bs 13 / 16 == 1;
  syn = byte_at bs 13 / 2 % 2 == 1;
  rst = byte_at bs 13 / 4 % 2 == 1;
  others = [];
}

abbrev parse_front : List ℕ → Option (TcpHeader × List ℕ)
parse_front s = if leb 20 (length s) then some (parse (take 20 s), drop 20 s) else none

abbrev pub plain : Extern
plain = record {
  default_others = [];
  valid_others = is_nil;
  header_len = λ h. 20;
  to_bytes = twenty_bytes;
  tcp_from_slice = parse_front;
  from_utf8_lossy = λ s. s;
  valid_utf8 = λ s. true;
}

flags_back :
    (a s r : Bool)
    → let n = bit s * 2 + bit r * 4 + bit a * 16 in
      ((n / 16 == 1) ≡ a) × ((n / 2 % 2 == 1) ≡ s) × ((n / 4 % 2 == 1) ≡ r)
flags_back false false false = (refl, refl, refl)
flags_back false false true = (refl, refl, refl)
flags_back false true false = (refl, refl, refl)
flags_back false true true = (refl, refl, refl)
flags_back true false false = (refl, refl, refl)
flags_back true false true = (refl, refl, refl)
flags_back true true false = (refl, refl, refl)
flags_back true true true = (refl, refl, refl)

word16 : (v : ℕ) → v < 2 ^ 16 → be16_at (be16 v []) 0 ≡ v
word16 v h = omega arith

word32 : (v : ℕ) → v < 2 ^ 32 → be32_at (be32 v []) 0 ≡ v
word32 v h = omega arith

nil_back : (l : List ℕ) → is_nil l ≡ true → l ≡ []
nil_back [] e = refl
nil_back (x ∷ xs) e = ground arith

round_trip :
    (h : TcpHeader) (rest : List ℕ)
    → IsTcpHeader plain h
    → parse_front (twenty_bytes h ++ rest) ≡ some (h, rest)
round_trip h rest w =
    let (a, s, r) = flags_back h.ack h.syn h.rst in
    rw
      (
        word16 h.source_port w.source_port_fits,
        word16 h.destination_port w.destination_port_fits,
        word32 h.sequence_number w.sequence_number_fits,
        word32 h.acknowledgment_number w.acknowledgment_number_fits,
        word16 h.window_size w.window_size_fits,
        a,
        s,
        r,
        ← nil_back h.others w.others_fit,
      )
      (ground arith)

take-append_le : (n : ℕ) (xs ys : List ℕ) → n ≤ length xs → take n (xs ++ ys) ≡ take n xs
take-append_le zero xs ys l = refl
take-append_le (suc n) [] ys l = absurd (omega arith)
take-append_le (suc n) (x ∷ xs) ys l = ap (◌∷◌ x) (take-append_le n xs ys (omega arith))

drop-append_le : (n : ℕ) (xs ys : List ℕ) → n ≤ length xs → drop n (xs ++ ys) ≡ drop n xs ++ ys
drop-append_le zero xs ys l = refl
drop-append_le (suc n) [] ys l = absurd (omega arith)
drop-append_le (suc n) (x ∷ xs) ys l = drop-append_le n xs ys (omega arith)

parse_append :
    (s rest more : List ℕ) (h : TcpHeader)
    → parse_front s ≡ some (h, rest)
    → parse_front (s ++ more) ≡ some (h, rest ++ more)
parse_append s rest more h e =
    let l : 20 ≤ length s = ground arith in
    ground (arith, take-append_le 20 s more l, drop-append_le 20 s more l, length-append s more)

pub plain-ExternLaws : ExternLaws plain
plain-ExternLaws = record {
  default_others_fit = refl;
  default_header_len = λ h e. refl;
  length_to_bytes = λ h. refl;
  from_slice_to_bytes = round_trip;
  from_slice_takes = λ s rest h e.
      (take 20 s, ground (arith, take-append-drop 20 s), ground (arith, length-take 20 s));
  min_header_len = λ h. omega arith;
  from_slice_append = parse_append;
  from_utf8_lossy_valid = λ s e. refl;
}

-- ===== src/Extern.antt =====
-- What the packet code uses of the crate etherparse and of the standard library's UTF-8 decoder,
-- as a record of functions, with the behaviour that the proofs rely on as a second record.
use rusbmux.Base.{ℕ, ◌≡◌, ◌≤◌, Bool, true, Option, some, List, ◌++◌, length}
use rusbmux.Base.Words.{IsU16, IsU32}

-- The fields of `etherparse::TcpHeader` that rusbmux reads or writes. `others` stands for the rest
-- (the other flags, the checksum, the urgent pointer and the options).
pub record TcpHeader : Type 0 where
  pub source_port : ℕ
  pub destination_port : ℕ
  pub sequence_number : ℕ
  pub acknowledgment_number : ℕ
  pub window_size : ℕ
  pub ack : Bool
  pub syn : Bool
  pub rst : Bool
  pub others : List ℕ

-- `TcpHeader::MIN_LEN`, the length of a TCP header with no options.
abbrev pub tcp_min_len : ℕ
tcp_min_len = 20

pub record Extern : Type 0 where
  -- What `TcpHeader::new` puts into the fields that it is not given.
  pub default_others : List ℕ
  -- Whether `others` is a value of those fields.
  pub valid_others : List ℕ → Bool
  pub header_len : TcpHeader → ℕ
  pub to_bytes : TcpHeader → List ℕ
  -- `TcpHeader::from_slice`: the header and the bytes behind it.
  pub tcp_from_slice : List ℕ → Option (TcpHeader × List ℕ)
  -- The bytes of `String::from_utf8_lossy`.
  pub from_utf8_lossy : List ℕ → List ℕ
  -- Whether the bytes are valid UTF-8.
  pub valid_utf8 : List ℕ → Bool

-- A header that the Rust type can hold.
pub record IsTcpHeader (x : Extern) (h : TcpHeader) : Type 0 where
  pub source_port_fits : IsU16 h.source_port
  pub destination_port_fits : IsU16 h.destination_port
  pub sequence_number_fits : IsU32 h.sequence_number
  pub acknowledgment_number_fits : IsU32 h.acknowledgment_number
  pub window_size_fits : IsU16 h.window_size
  pub others_fit : x.valid_others h.others ≡ true

pub record ExternLaws (x : Extern) : Type 0 where
  pub default_others_fit : x.valid_others x.default_others ≡ true
  pub default_header_len :
      (h : TcpHeader) → h.others ≡ x.default_others → x.header_len h ≡ tcp_min_len
  pub length_to_bytes : (h : TcpHeader) → length (x.to_bytes h) ≡ x.header_len h
  pub from_slice_to_bytes :
      (h : TcpHeader) (rest : List ℕ)
      → IsTcpHeader x h
      → x.tcp_from_slice (x.to_bytes h ++ rest) ≡ some (h, rest)
  -- A parsed header takes the length that it states from the front, and no less than 20 bytes.
  pub from_slice_takes :
      (s rest : List ℕ) (h : TcpHeader)
      → x.tcp_from_slice s ≡ some (h, rest)
      → (front : List ℕ) × (s ≡ front ++ rest) × (length front ≡ x.header_len h)
  pub min_header_len : (h : TcpHeader) → tcp_min_len ≤ x.header_len h
  -- Bytes behind the header do not change what is parsed.
  pub from_slice_append :
      (s rest more : List ℕ) (h : TcpHeader)
      → x.tcp_from_slice s ≡ some (h, rest)
      → x.tcp_from_slice (s ++ more) ≡ some (h, rest ++ more)
  pub from_utf8_lossy_valid : (s : List ℕ) → x.valid_utf8 s ≡ true → x.from_utf8_lossy s ≡ s

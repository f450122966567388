-- ===== src/Base/Words.antt =====
-- Machine words as bytes: `to_be_bytes`, `from_be_bytes` and the native (little-endian) layout.
use Prim.Native.Nat.{ℕ, zero, suc, ◌+◌, ◌*◌, ◌/◌, ◌%◌, ◌^◌, ◌≤◌, ◌<◌}
use mathlib.Core.Path.{◌≡◌, refl}
use native.Mathlib.Omega.{arith}
use rusbmux.Base.Lists.{take}
use mathlib.Core.List.{List, [], ◌∷◌}

abbrev pub IsU8 : ℕ → Type 0
IsU8 x = x < 2 ^ 8

abbrev pub IsU16 : ℕ → Type 0
IsU16 x = x < 2 ^ 16

abbrev pub IsU32 : ℕ → Type 0
IsU32 x = x < 2 ^ 32

-- `x as u16`, `x as u32` of an unsigned number.
abbrev pub as_u16 : ℕ → ℕ
as_u16 x = x % 2 ^ 16

abbrev pub as_u32 : ℕ → ℕ
as_u32 x = x % 2 ^ 32

-- The bytes of a u16 or a u32, highest first, put in front of `rest`.
abbrev pub be16 : ℕ → List ℕ → List ℕ
be16 x rest = (x / 2 ^ 8 % 2 ^ 8) ∷ (x % 2 ^ 8) ∷ rest

abbrev pub be32 : ℕ → List ℕ → List ℕ
be32 x rest = (x / 2 ^ 24 % 2 ^ 8) ∷ (x / 2 ^ 16 % 2 ^ 8) ∷ (x / 2 ^ 8 % 2 ^ 8) ∷ (x % 2 ^ 8) ∷ rest

-- The bytes of a u32, lowest first.
abbrev pub le32 : ℕ → List ℕ → List ℕ
le32 x rest = (x % 2 ^ 8) ∷ (x / 2 ^ 8 % 2 ^ 8) ∷ (x / 2 ^ 16 % 2 ^ 8) ∷ (x / 2 ^ 24 % 2 ^ 8) ∷ rest

-- The element at an offset of an array that is known to be long enough.
abbrev pub byte_at : List ℕ → ℕ → ℕ
byte_at [] i = 0
byte_at (x ∷ xs) zero = x
byte_at (x ∷ xs) (suc i) = byte_at xs i

abbrev pub be16_at : List ℕ → ℕ → ℕ
be16_at bs i = byte_at bs i * 2 ^ 8 + byte_at bs (i + 1)

abbrev pub be32_at : List ℕ → ℕ → ℕ
be32_at bs i =
    byte_at bs i * 2 ^ 24
    + byte_at bs (i + 1) * 2 ^ 16
    + byte_at bs (i + 2) * 2 ^ 8
    + byte_at bs (i + 3)

abbrev pub le32_at : List ℕ → ℕ → ℕ
le32_at bs i =
    byte_at bs i
    + byte_at bs (i + 1) * 2 ^ 8
    + byte_at bs (i + 2) * 2 ^ 16
    + byte_at bs (i + 3) * 2 ^ 24

pub byte_at-take : (n i : ℕ) (xs : List ℕ) → i < n → byte_at (take n xs) i ≡ byte_at xs i
byte_at-take zero i xs h = absurd (omega arith)
byte_at-take (suc n) i [] h = refl
byte_at-take (suc n) zero (x ∷ xs) h = refl
byte_at-take (suc n) (suc i) (x ∷ xs) h = byte_at-take n i xs (omega arith)

-- The number at the front of an array is that at the front of what it was cut from.
pub be32_at-take : (n : ℕ) (xs : List ℕ) → 4 ≤ n → be32_at (take n xs) 0 ≡ be32_at xs 0
be32_at-take n xs h = ground (
  arith,
  byte_at-take n 0 xs (omega arith),
  byte_at-take n 1 xs (omega arith),
  byte_at-take n 2 xs (omega arith),
  byte_at-take n 3 xs (omega arith),
)

-- `u16::to_be` on a little-endian host: the two bytes change places.
abbrev pub to_be16 : ℕ → ℕ
to_be16 x = x % 2 ^ 8 * 2 ^ 8 + x / 2 ^ 8 % 2 ^ 8

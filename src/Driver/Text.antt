-- ===== src/Driver/Text.antt =====
-- The functions of `str` that windows/rusbmux-usb-win-driver/src/uninstall.rs uses, on lists of characters.
use Prim.Native.Char.{code}
use Prim.Native.String.{String}
use rusbmux.Base.{
  ℕ, Bool, true, false, ◌||◌, ◌&&◌, Option, none, some, List, [], ◌∷◌, ◌==◌, leb, if◌then◌else◌,
}

-- The characters of a literal.
abbrev pub codes : String → List ℕ
codes String.[] = []
codes (String.◌∷◌ c s) = code c ∷ codes s

-- `char::is_whitespace`
unfoldable pub is_whitespace : ℕ → Bool
is_whitespace c =
    (leb 0x9 c && leb c 0xd)
    || c == 0x20
    || c == 0x85
    || c == 0xa0
    || c == 0x1680
    || (leb 0x2000 c && leb c 0x200a)
    || c == 0x2028
    || c == 0x2029
    || c == 0x202f
    || c == 0x205f
    || c == 0x3000

unfoldable pub trim_start : List ℕ → List ℕ
unfolding is_whitespace
trim_start [] = []
trim_start (c ∷ cs) = let rest = trim_start cs in if is_whitespace c then rest else c ∷ cs

abbrev trim_cons : ℕ → List ℕ → List ℕ
trim_cons c [] = if is_whitespace c then [] else c ∷ []
trim_cons c (d ∷ ds) = c ∷ d ∷ ds

unfoldable pub trim_end : List ℕ → List ℕ
unfolding is_whitespace
trim_end [] = []
trim_end (c ∷ cs) = trim_cons c (trim_end cs)

unfoldable pub trim : List ℕ → List ℕ
unfolding trim_start trim_end
trim cs = trim_end (trim_start cs)

unfoldable pub strip_prefix : List ℕ → List ℕ → Option (List ℕ)
strip_prefix [] s = some s
strip_prefix (a ∷ p) [] = none
strip_prefix (a ∷ p) (c ∷ s) = let rest = strip_prefix p s in if a == c then rest else none

abbrev starts_with : List ℕ → List ℕ → Bool
starts_with p s = elim (strip_prefix p s) [ some _ ↦ true | none ↦ false ]

unfoldable pub contains : List ℕ → List ℕ → Bool
unfolding strip_prefix
contains p [] = starts_with p []
contains p (c ∷ s) = let rest = contains p s in if starts_with p (c ∷ s) then true else rest

abbrev starts_with_line_feed : List ℕ → Bool
starts_with_line_feed [] = false
starts_with_line_feed (c ∷ cs) = c == 0xa

abbrev cons_line : ℕ → List (List ℕ) → List (List ℕ)
cons_line c [] = (c ∷ []) ∷ []
cons_line c (l ∷ ls) = (c ∷ l) ∷ ls

-- `str::lines`: a line ends at a line feed or at a carriage return and a line feed.
unfoldable pub lines : List ℕ → List (List ℕ)
lines [] = []
lines (c ∷ cs) =
    let rest = lines cs in
    if c == 0xa
    then [] ∷ rest
    else if c == 0xd && starts_with_line_feed cs
    then rest
    else cons_line c rest

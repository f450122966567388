-- ===== src/Base/Parser.antt =====
-- Parsers: functions on the bytes that are left. A failing read may have taken bytes too, so the
-- rest comes back beside the error.
use Prim.Native.Nat.{ℕ, ◌≤◌}
use mathlib.Core.Path.{◌≡◌, refl}
use mathlib.Core.Bool.{Bool, true, false}
use mathlib.Core.Option.{none, some}
use mathlib.Core.List.{List, [], ◌++◌}
use rusbmux.Base.Lists.{length, split_at?, split_at?-append}

-- The kinds of `std::io::Error` that the source tells apart; `other` is any kind it does not name.
pub data IoErrorKind : Type 0 where
  unexpected_eof connection_reset connection_aborted broken_pipe : IoErrorKind
  not_found permission_denied network_unreachable other : IoErrorKind

-- error/mod.rs: `ParseError`. The texts and the errors of other crates inside it are left out.
pub data ParseError : Type 0 where
  io : IoErrorKind → ParseError
  plist tcp_header_slice invalid_data : ParseError

-- `panic` is an abort of the task; `undefined` is a transmute of a number that stands for no
-- variant, which has no defined behaviour.
pub data Reply {ℓ} (A : Type ℓ) : Type ℓ where
  ok : A → List ℕ → Reply A
  err : ParseError → List ℕ → Reply A
  panic undefined : Reply A

abbrev pub Parser {ℓ} : Type ℓ → Type ℓ
Parser A = List ℕ → Reply A

abbrev pub continue {ℓ κ} : {A : Type ℓ} {B : Type κ} → Reply A → (A → Parser B) → Reply B
continue (ok a rest) f = f a rest
continue (err e rest) f = err e rest
continue panic f = panic
continue undefined f = undefined

infixl 5 ◌>>=◌ ◌>>◌
abbrev pub ◌>>=◌ {ℓ κ} : {A : Type ℓ} {B : Type κ} → Parser A → (A → Parser B) → Parser B
◌>>=◌ m f s = continue (m s) f

abbrev pub ◌>>◌ {ℓ} : {B : Type ℓ} → Parser (Unit {0}) → Parser B → Parser B
m >> k = m >>= λ _. k

abbrev pub return {ℓ} : {A : Type ℓ} → A → Parser A
return a s = ok a s

abbrev pub raise {ℓ} : {A : Type ℓ} → ParseError → Parser A
raise e s = err e s

-- The bytes that are left, without taking any.
abbrev pub remaining : Parser (List ℕ)
remaining s = ok s s

abbrev pub ensure : Bool → ParseError → Parser (Unit {0})
ensure true e s = ok tt s
ensure false e s = err e s

-- `&s[..n]`, after which `s` is `&s[n..]`: a slice that is too short panics.
unfoldable pub advance : ℕ → Parser (List ℕ)
unfolding split_at?
advance n s = elim (split_at? n s) [ none ↦ panic | some (a, b) ↦ ok a b ]

-- `read_exact` of `n` bytes from a stream that gives the listed bytes and then the error `end`
-- (`unexpected_eof` where the peer has closed it). On an error the bytes before it are gone.
unfoldable pub read_exact : IoErrorKind → ℕ → Parser (List ℕ)
unfolding split_at?
read_exact end n s = elim (split_at? n s) [ none ↦ err (io end) [] | some (a, b) ↦ ok a b ]

pub advance-append : (n : ℕ) (xs ys : List ℕ) → length xs ≡ n → advance n (xs ++ ys) ≡ ok xs ys
unfolding advance
advance-append n xs ys h = rw (split_at?-append n xs ys h, advance)

pub read_exact-append :
    (end : IoErrorKind) (n : ℕ) (xs ys : List ℕ)
    → length xs ≡ n
    → read_exact end n (xs ++ ys) ≡ ok xs ys
unfolding read_exact
read_exact-append end n xs ys h = rw (split_at?-append n xs ys h, read_exact)

-- A sequence that succeeds has a first part that succeeds.
pub >>=-eq-ok {ℓ κ} :
    {A : Type ℓ} {B : Type κ} (m : Parser A) (f : A → Parser B) (s rest : List ℕ) {b : B}
    → (m >>= f) s ≡ ok b rest
    → (a : A) × (t : List ℕ) × (m s ≡ ok a t) × (f a t ≡ ok b rest)
>>=-eq-ok {A} m f s rest {b} h = go (m s) refl h
  where
    go :
        (r : Reply A)
        → m s ≡ r
        → continue r f ≡ ok b rest
        → (a : A) × (t : List ℕ) × (m s ≡ ok a t) × (f a t ≡ ok b rest)
    go (ok a t) e k = (a, t, e, k)
    go (err c t) e k = absurd (cc)
    go panic e k = absurd (cc)
    go undefined e k = absurd (cc)

-- A reply that leaves at most `n` bytes, unless it is for want of bytes that it fails.
abbrev pub Leaves {ℓ} : {A : Type ℓ} → ℕ → Reply A → Type 0
Leaves n (ok a rest) = length rest ≤ n
Leaves n (err (io _) rest) = Unit
Leaves n (err _ rest) = length rest ≤ n
Leaves n _ = Unit

pub Leaves->>= {ℓ κ} :
    {A : Type ℓ} {B : Type κ} (n : ℕ) (r : Reply A) (f : A → Parser B)
    → Leaves n r
    → ((a : A) (t : List ℕ) → length t ≤ n → Leaves n (f a t))
    → Leaves n (continue r f)
Leaves->>= n (ok a rest) f h k = k a rest h
Leaves->>= n (err (io _) rest) f h k = tt
Leaves->>= n (err plist rest) f h k = h
Leaves->>= n (err tcp_header_slice rest) f h k = h
Leaves->>= n (err invalid_data rest) f h k = h
Leaves->>= n panic f h k = tt
Leaves->>= n undefined f h k = tt

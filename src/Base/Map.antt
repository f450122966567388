-- ===== src/Base/Map.antt =====
-- `DashMap` with number keys, as an association list in the order of its iterator.
use Prim.Native.Nat.{ℕ}
use mathlib.Core.Path.{◌≡◌, refl}
use mathlib.Core.Bool.{Bool, true, false}
use mathlib.Core.Option.{Option, none, some}
use mathlib.Core.List.{List, [], ◌∷◌}
use native.Mathlib.Omega.{arith}
use rusbmux.Base.Tests.{◌==◌, if◌then◌else◌}

module _ {ℓ} {V : Type ℓ} where
  abbrev pub get : ℕ → List (ℕ × V) → Option V
  get k [] = none
  get k ((j, v) ∷ m) = if j == k then some v else get k m

  -- The old entry of the key goes; the new one stands in front.
  abbrev pub remove : ℕ → List (ℕ × V) → List (ℕ × V)
  remove k [] = []
  remove k ((j, v) ∷ m) = if j == k then remove k m else (j, v) ∷ remove k m

  abbrev pub insert : ℕ → V → List (ℕ × V) → List (ℕ × V)
  insert k v m = (k, v) ∷ remove k m

  abbrev pub retain : (ℕ → V → Bool) → List (ℕ × V) → List (ℕ × V)
  retain keep [] = []
  retain keep ((j, v) ∷ m) = if keep j v then (j, v) ∷ retain keep m else retain keep m

  -- `iter().find`
  abbrev pub find : (V → Bool) → List (ℕ × V) → Option V
  find p [] = none
  find p ((j, v) ∷ m) = if p v then some v else find p m

  -- `iter().any`
  abbrev pub any : (V → Bool) → List (ℕ × V) → Bool
  any p [] = false
  any p ((j, v) ∷ m) = if p v then true else any p m

  -- No key has two entries.
  abbrev pub Fresh : ℕ → List (ℕ × V) → Type ℓ
  Fresh k m = get k m ≡ none

  abbrev pub IsMap : List (ℕ × V) → Type ℓ
  IsMap [] = Unit
  IsMap ((k, v) ∷ m) = Fresh k m × IsMap m

  pub get-remove :
      (k j : ℕ) (m : List (ℕ × V)) → get j (remove k m) ≡ (if k == j then none else get j m)
  get-remove k j [] = ground arith
  get-remove k j ((i, v) ∷ m) = ground (arith, get-remove k j m)

  pub get-insert :
      (k j : ℕ) (v : V) (m : List (ℕ × V))
      → get j (insert k v m) ≡ (if k == j then some v else get j m)
  get-insert k j v m = ground (arith, get-remove k j m)

  pub remove-IsMap : (k : ℕ) (m : List (ℕ × V)) → IsMap m → IsMap (remove k m)
  remove-IsMap k [] h = tt
  remove-IsMap k ((j, v) ∷ m) h = ground (arith, get-remove k j m, remove-IsMap k m h.1)

  pub insert-IsMap : (k : ℕ) (v : V) (m : List (ℕ × V)) → IsMap m → IsMap (insert k v m)
  insert-IsMap k v m h = ground (arith, get-remove k k m, remove-IsMap k m h)

  pub retain-Fresh :
      (keep : ℕ → V → Bool) (k : ℕ) (m : List (ℕ × V)) → Fresh k m → Fresh k (retain keep m)
  retain-Fresh keep k [] h = refl
  retain-Fresh keep k ((j, v) ∷ m) h = ground (arith, retain-Fresh keep k m)

  pub retain-IsMap : (keep : ℕ → V → Bool) (m : List (ℕ × V)) → IsMap m → IsMap (retain keep m)
  retain-IsMap keep [] h = tt
  retain-IsMap keep ((j, v) ∷ m) h =
      ground (arith, retain-Fresh keep j m h.0, retain-IsMap keep m h.1)

  abbrev pub kept : (ℕ → V → Bool) → ℕ → Option V → Option V
  kept keep k none = none
  kept keep k (some v) = if keep k v then some v else none

  pub get-retain :
      (keep : ℕ → V → Bool) (k : ℕ) (m : List (ℕ × V))
      → IsMap m
      → get k (retain keep m) ≡ kept keep k (get k m)
  get-retain keep k [] h = refl
  get-retain keep k ((j, v) ∷ m) h =
      ground (arith, get-retain keep k m h.1, retain-Fresh keep j m h.0)

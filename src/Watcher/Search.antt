-- ===== src/Watcher/Search.antt =====
-- The searches in the table of devices: what `any` and `find` say of its entries.
use rusbmux.Base.{
  ℕ, ◌≡◌, ◌↔◌, refl, Bool, true, false, none, some, List, [], ◌∷◌, arith, Bool-cases, inl, inr,
}
use rusbmux.Base.Map.{get, remove, find, any, IsMap}
use rusbmux.NetworkDevice.{NetworkDevice}
use rusbmux.Devices.{Device, network, usb, is_usb, serial_number}
use rusbmux.Watcher.{same, is_usb_of, is_network_of}

pub same_iff : (a b : List ℕ) → (same a b ≡ true) ↔ (a ≡ b)
same_iff [] [] = (λ e. refl, λ e. refl)
same_iff [] (b ∷ bs) = (λ e. ground arith, λ e. ground arith)
same_iff (a ∷ as') [] = (λ e. ground arith, λ e. ground arith)
same_iff (a ∷ as') (b ∷ bs) =
    (λ e. ground (arith, same_iff as' bs), λ e. ground (arith, same_iff as' bs))

module _ {ℓ} {V : Type ℓ} (p : V → Bool) where
  -- An entry that fits is found by `any`, and by `find` some entry that fits.
  pub any-of_get :
      (m : List (ℕ × V)) (k : ℕ) (v : V) → get k m ≡ some v → p v ≡ true → any p m ≡ true
  any-of_get [] k v e h = ground arith
  any-of_get ((j, w) ∷ m) k v e h = ground (arith, any-of_get m k v)

  pub get-of_any :
      (m : List (ℕ × V))
      → IsMap m
      → any p m ≡ true
      → (k : ℕ) × (v : V) × (get k m ≡ some v) × (p v ≡ true)
  get-of_any [] u h = ground arith
  get-of_any ((j, w) ∷ m) u h = elim (Bool-cases (p w)) [
    | inl fits ↦ (j, w, ground arith, fits)
    | inr other ↦ let (k, v, e, h') = get-of_any m u.1 (ground arith) in (k, v, ground arith, h')
  ]

  pub get-of_find :
      (m : List (ℕ × V)) (v : V)
      → IsMap m
      → find p m ≡ some v
      → (k : ℕ) × (get k m ≡ some v) × (p v ≡ true)
  get-of_find [] v u h = ground arith
  get-of_find ((j, w) ∷ m) v u h = elim (Bool-cases (p w)) [
    | inl fits ↦ (j, ground arith, ground arith)
    | inr other ↦ let (k, e, h') = get-of_find m v u.1 (ground arith) in (k, ground arith, h')
  ]

  pub find-none :
      (m : List (ℕ × V)) (k : ℕ) (v : V) → find p m ≡ none → get k m ≡ some v → p v ≡ false
  find-none [] k v h e = ground arith
  find-none ((j, w) ∷ m) k v h e = ground (arith, find-none m k v)

  pub any-remove_absent : (k : ℕ) (m : List (ℕ × V)) → get k m ≡ none → any p (remove k m) ≡ any p m
  any-remove_absent k [] e = refl
  any-remove_absent k ((j, w) ∷ m) e = ground (arith, any-remove_absent k m)

  pub any-remove_other :
      (k : ℕ) (m : List (ℕ × V)) (v : V)
      → IsMap m
      → get k m ≡ some v
      → p v ≡ false
      → any p (remove k m) ≡ any p m
  any-remove_other k [] v u e h = refl
  any-remove_other k ((j, w) ∷ m) v u e h =
      ground (arith, any-remove_other k m v u.1, any-remove_absent k m)

pub is_usb_of_iff :
    (s : List ℕ) (e : Device) → is_usb_of s e ≡ true → (is_usb e ≡ true) × (serial_number e ≡ s)
is_usb_of_iff s (usb d) h = (refl, (same_iff (serial_number (usb d)) s).0 h)
is_usb_of_iff s (network d) h = ground arith

pub is_network_of_iff :
    (s : List ℕ) (e : Device)
    → is_network_of s e ≡ true
    → (n : NetworkDevice) × (e ≡ network n) × (n.serial_number ≡ s)
is_network_of_iff s (network n) h = (n, refl, (same_iff n.serial_number s).0 h)
is_network_of_iff s (usb d) h = ground arith

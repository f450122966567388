-- ===== src/Driver/Uninstall/Rounds.antt =====
-- The rounds of `uninstall_any_apple_driver`.
use rusbmux.Base.{
  ℕ, zero, suc, ◌≡◌, refl, ap, ◌≤◌, ◌<◌, true, some, List, [], ◌∷◌, length, inl, inr, ◌⊎◌, arith,
}
use rusbmux.Driver.Text.{lines}
use rusbmux.Driver.Listing.{PnpEntity}
use rusbmux.Driver.Listing.Blocks.{blocks, listed_in, scan-blocks}
use rusbmux.Driver.Uninstall.{
  Outcome, ok, err, Pnputil, remove_device, rescan, find_apple_devices, remove_all, uninstall_found,
  uninstall_any_apple_driver, then_run,
}

module _ {Machine : Type 0} (p : Pnputil Machine) where
  -- The drivers that are found are those that each block of the listing adds, in its order, where a
  -- block is a run of lines between blank lines and a key's last line in a block says its value.
  pub find_apple_devices-blocks :
      (m : Machine) (text : List ℕ)
      → p.enum_devices m ≡ some text
      → find_apple_devices p m ≡ ok (listed_in (blocks (lines text)))
  unfolding find_apple_devices
  find_apple_devices-blocks m text h =
      rw h (ap ok (scan-blocks (suc (length (lines text))) (lines text) (omega arith)))

  -- A full round: drivers were found, each was removed, and the rescan succeeded.
  pub data Rounds : ℕ → Machine → Machine → Type 0 where
    none_yet : (m : Machine) → Rounds 0 m m
    round :
        {k : ℕ} {m m1 m2 m' : Machine} (dev : PnpEntity) (devs : List PnpEntity)
        → find_apple_devices p m ≡ ok (dev ∷ devs)
        → remove_all p (dev ∷ devs) m ≡ (m1, ok tt)
        → rescan p m1 ≡ (m2, ok tt)
        → Rounds k m2 m'
        → Rounds (suc k) m m'

  -- The step that an error code comes from, and what the machine is then.
  pub data Stopped (m : Machine) : Machine → ℕ → Type 0 where
    not_listed : {code : ℕ} → find_apple_devices p m ≡ err code → Stopped m m code
    not_removed :
        {m' : Machine} {code : ℕ} (dev : PnpEntity) (devs : List PnpEntity)
        → find_apple_devices p m ≡ ok (dev ∷ devs)
        → remove_all p (dev ∷ devs) m ≡ (m', err code)
        → Stopped m m' code
    not_rescanned :
        {m1 m' : Machine} {code : ℕ} (dev : PnpEntity) (devs : List PnpEntity)
        → find_apple_devices p m ≡ ok (dev ∷ devs)
        → remove_all p (dev ∷ devs) m ≡ (m1, ok tt)
        → rescan p m1 ≡ (m', err code)
        → Stopped m m' code

  abbrev pub Ends : ℕ → Machine → Machine × Outcome (Unit {0}) → Type 0
  Ends n m (m', ok t) =
      (k : ℕ) × Rounds k m m' × ((k ≡ n) ⊎ ((k < n) × (find_apple_devices p m' ≡ ok [])))
  Ends n m (m', err code) = (k : ℕ) × (m1 : Machine) × Rounds k m m1 × (k < n) × Stopped m1 m' code

  Ends-round :
      (n : ℕ) (m m1 m2 : Machine) (dev : PnpEntity) (devs : List PnpEntity)
      → find_apple_devices p m ≡ ok (dev ∷ devs)
      → remove_all p (dev ∷ devs) m ≡ (m1, ok tt)
      → rescan p m1 ≡ (m2, ok tt)
      → (r : Machine × Outcome (Unit {0})) → Ends n m2 r
      → Ends (suc n) m r
  Ends-round n m m1 m2 dev devs f a s (m', ok t) (k, rs, inl all) =
      (suc k, round dev devs f a s rs, inl (omega arith))
  Ends-round n m m1 m2 dev devs f a s (m', ok t) (k, rs, inr (lt, none_left)) =
      (suc k, round dev devs f a s rs, inr (omega arith, none_left))
  Ends-round n m m1 m2 dev devs f a s (m', err code) (k, m3, rs, lt, stop) =
      (suc k, m3, round dev devs f a s rs, omega arith, stop)

  module _ (n : ℕ) (next : Machine → Machine × Outcome (Unit {0}))
      (ih : (m : Machine) → Ends n m (next m)) (m : Machine) (dev : PnpEntity)
      (devs : List PnpEntity) (f : find_apple_devices p m ≡ ok (dev ∷ devs)) where
    rescan-Ends :
        (m1 : Machine)
        → remove_all p (dev ∷ devs) m ≡ (m1, ok tt)
        → (r : Machine × Outcome (Unit {0})) → rescan p m1 ≡ r
        → Ends (suc n) m (then_run p r next)
    rescan-Ends m1 a (m2, ok t) s = Ends-round n m m1 m2 dev devs f a s (next m2) (ih m2)
    rescan-Ends m1 a (m2, err code) s =
        (0, m, none_yet m, omega arith, not_rescanned dev devs f a s)

    remove_all-Ends :
        (r : Machine × Outcome (Unit {0}))
        → remove_all p (dev ∷ devs) m ≡ r
        → Ends (suc n) m (then_run p r (λ m1. then_run p (rescan p m1) next))
    remove_all-Ends (m1, ok t) a = rescan-Ends m1 a (rescan p m1) refl
    remove_all-Ends (m1, err code) a = (0, m, none_yet m, omega arith, not_removed dev devs f a)

  uninstall_found-Ends :
      (n : ℕ) (next : Machine → Machine × Outcome (Unit {0}))
      → ((m : Machine) → Ends n m (next m))
      → (m : Machine) (o : Outcome (List PnpEntity)) → find_apple_devices p m ≡ o
      → Ends (suc n) m (uninstall_found p o next m)
  unfolding uninstall_found
  uninstall_found-Ends n next ih m (err code) f = (0, m, none_yet m, omega arith, not_listed f)
  uninstall_found-Ends n next ih m (ok []) f = (0, none_yet m, inr (omega arith, f))
  uninstall_found-Ends n next ih m (ok (dev ∷ devs)) f =
      remove_all-Ends n next ih m dev devs f (remove_all p (dev ∷ devs) m) refl

  -- A run ends well after rounds that all succeed, as many as it was allowed, or fewer and then
  -- nothing is listed that is to be removed; or it ends with the code of the first step that fails,
  -- after rounds that all succeed, and changes the machine no more after that step.
  pub uninstall_any_apple_driver-Ends :
      (n : ℕ) (m : Machine) → Ends n m (uninstall_any_apple_driver p n m)
  unfolding uninstall_any_apple_driver
  uninstall_any_apple_driver-Ends zero m = (0, none_yet m, inl refl)
  uninstall_any_apple_driver-Ends (suc n) m =
      uninstall_found-Ends n (uninstall_any_apple_driver p n) (uninstall_any_apple_driver-Ends n) m
        (find_apple_devices p m) refl

  -- What is expected of pnputil: the commands succeed, and a removed driver is gone. `layers` counts
  -- the drivers that are installed one above the other.
  pub record Works (layers : Machine → ℕ) : Type 0 where
    pub lists : (m : Machine) → (text : List ℕ) × (p.enum_devices m ≡ some text)
    pub deletes : (inf : List ℕ) (m : Machine) → (p.delete_driver inf m).1 ≡ some []
    pub rescans : (m : Machine) → (p.scan_devices m).1 ≡ some true
    pub lowers :
        (m : Machine) (dev : PnpEntity) (devs : List PnpEntity)
        → find_apple_devices p m ≡ ok (dev ∷ devs)
        → layers (p.delete_driver dev.inf_name m).0 < layers m
    pub keeps : (inf : List ℕ) (m : Machine) → layers (p.delete_driver inf m).0 ≤ layers m
    pub keeps_rescan : (m : Machine) → layers (p.scan_devices m).0 ≤ layers m

  module _ {layers : Machine → ℕ} (w : Works layers) where
    remove_device-Works :
        (inf : List ℕ) (m : Machine) → remove_device p inf m ≡ ((p.delete_driver inf m).0, ok tt)
    unfolding remove_device
    remove_device-Works inf m = ground (arith, w.deletes inf m)

    rescan-Works : (m : Machine) → rescan p m ≡ ((p.scan_devices m).0, ok tt)
    unfolding rescan
    rescan-Works m = ground (arith, w.rescans m)

    remove_all-Works :
        (devs : List PnpEntity) (m : Machine)
        → (m' : Machine) × (remove_all p devs m ≡ (m', ok tt)) × (layers m' ≤ layers m)
    unfolding remove_all
    remove_all-Works [] m = (m, refl, omega arith)
    remove_all-Works (dev ∷ devs) m =
        let (m', e, le) = remove_all-Works devs (p.delete_driver dev.inf_name m).0 in
        (m', rw (remove_device-Works dev.inf_name m) e, omega (arith, w.keeps dev.inf_name m))

    listing : (m : Machine) → (devs : List PnpEntity) × (find_apple_devices p m ≡ ok devs)
    listing m =
        let (text, e) = w.lists m in
        (listed_in (blocks (lines text)), find_apple_devices-blocks m text e)

    -- A round with a driver to remove lowers the number of layers.
    removed_round :
        (m : Machine) (dev : PnpEntity) (devs : List PnpEntity)
        → find_apple_devices p m ≡ ok (dev ∷ devs)
        → (m1 : Machine) × (remove_all p (dev ∷ devs) m ≡ (m1, ok tt)) × (layers m1 < layers m)
    unfolding remove_all
    removed_round m dev devs f =
        let (m', e, le) = remove_all-Works devs (p.delete_driver dev.inf_name m).0 in
        (m', rw (remove_device-Works dev.inf_name m) e, omega (arith, w.lowers m dev devs f))

    abbrev Clears : Machine × Outcome (Unit {0}) → Type 0
    Clears r = (r.1 ≡ ok tt) × (find_apple_devices p r.0 ≡ ok [])

    found-Clears :
        (n : ℕ)
        → ((m : Machine) → layers m < n → Clears (uninstall_any_apple_driver p n m))
        → (m : Machine) (devs : List PnpEntity) → find_apple_devices p m ≡ ok devs
        → layers m < suc n
        → Clears (uninstall_found p (ok devs) (uninstall_any_apple_driver p n) m)
    unfolding uninstall_found
    found-Clears n ih m [] f lt = (refl, f)
    found-Clears n ih m (dev ∷ devs) f lt =
        let (m1, e, le) = removed_round m dev devs f in
        rw (e, rescan-Works m1) (ih (p.scan_devices m1).0 (omega (arith, w.keeps_rescan m1)))

    -- With more rounds than stacked drivers, and a pnputil that does what it is asked, the run succeeds
    -- and no driver of an Apple device is listed behind it.
    pub uninstall_clears :
        (n : ℕ) (m : Machine)
        → layers m < n
        → ((uninstall_any_apple_driver p n m).1 ≡ ok tt)
          × (find_apple_devices p (uninstall_any_apple_driver p n m).0 ≡ ok [])
    unfolding uninstall_any_apple_driver
    uninstall_clears zero m lt = absurd (omega arith)
    uninstall_clears (suc n) m lt =
        let (devs, f) = listing m in rw f (found-Clears n (uninstall_clears n) m devs f lt)

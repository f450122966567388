-- ===== src/Handler/Listen/Start.antt =====
-- What a listening client knows once it has the devices that `send_currently_connected` sends.
use rusbmux.Base.{
  ℕ, ◌≡◌, refl, ◌∙◌, ◌==◌, Bool, true, false, Option, none, some, List, [], ◌∷◌, if◌then◌else◌,
  arith, Option-cases,
}
use rusbmux.Base.Map.{get, IsMap, Fresh}
use rusbmux.Devices
use rusbmux.Devices.{Device}
use rusbmux.Watcher.{Connected, DeviceEvent, attached}
use rusbmux.Watcher.Registry.{IsRegistry, retain-IsRegistry}
use rusbmux.Watcher.View.{View, replay, shows_entry, Shows}
use rusbmux.Handler.DeviceList.{is_listed, listed}
use rusbmux.Handler.DeviceList.Agreement.{get-listed}

-- The devices that are sent, as events.
abbrev pub attaches : Connected → List DeviceEvent
attaches [] = []
attaches ((k, d) ∷ m) = attached (Devices.id d) ∷ attaches m

abbrev present : Option Device → Bool
present none = false
present (some d) = true

abbrev OwnIds : Connected → Type 0
OwnIds m = (k : ℕ) (d : Device) → get k m ≡ some d → Devices.id d ≡ k

own_rest : (k : ℕ) (d : Device) (m : Connected) → Fresh k m → OwnIds ((k, d) ∷ m) → OwnIds m
own_rest k d m fresh own j e h = ground (arith, own j e)

own_first : (k : ℕ) (d : Device) (m : Connected) → OwnIds ((k, d) ∷ m) → Devices.id d ≡ k
own_first k d m own = own k d (ground arith)

replay-attaches :
    (m : Connected) (v : View) (j : ℕ)
    → IsMap m
    → OwnIds m
    → replay (attaches m) v j ≡ (if present (get j m) then true else v j)
replay-attaches [] v j u own = refl
replay-attaches ((k, d) ∷ m) v j u own =
    let w : View = λ i. if Devices.id d == i then true else v i in
    ground (
      arith,
      replay-attaches m w j u.1 (own_rest k d m u.0 own),
      own_first k d m own,
      Option-cases (get j m),
    )

present-listed :
    (m : Connected) (o : Option Device)
    → (if present (if shows_entry m o then o else none) then true else false) ≡ shows_entry m o
present-listed m none = refl
present-listed m (some d) = ground arith

-- A client that starts to listen knows, once it has the connected devices, exactly what the table shows.
pub send_currently_connected-Shows :
    (m : Connected) → IsRegistry m → Shows (replay (attaches (listed m)) (λ j. false)) m
unfolding listed
send_currently_connected-Shows m r j =
    let in_order = retain-IsRegistry (λ _ d. is_listed m d) m r in
    replay-attaches (listed m) (λ i. false) j in_order.is_map in_order.own_id
    ∙ (rw (get-listed m j r) (present-listed m (get j m)))

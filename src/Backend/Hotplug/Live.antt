-- ===== src/Backend/Hotplug/Live.antt =====
-- The ids of the connected devices: an id belongs to one device, and is the one that was reported as connected and
-- not as disconnected since.
use rusbmux.Base.{
  ℕ, ◌≡◌, ◌≤◌, ◌<◌, ◌+◌, ◌^◌, ◌%◌, refl, ◌==◌, Bool, true, false, Option, none, some, List, [], ◌∷◌,
  ◌++◌, length, Bool-cases, if◌then◌else◌, arith, inl, inr,
}
use rusbmux.Base.Map.{get, get-insert, get-remove}
use rusbmux.Backend.{AnyDeviceInfo, nusb, rusb, opaque_id, apple_vid}
use rusbmux.Backend.Hotplug.{
  Event, connected, disconnected, UsbEvent, arrived, left, HotplugEvent, plugged, unplugged, Ids,
  arrive, leave_known, leave, watch_rusb, watch_nusb,
}

-- The ids connected and not disconnected.
abbrev pub replay : List Event → (ℕ → Bool) → ℕ → Bool
replay [] v = v
replay (connected d id ∷ events) v = replay events (λ i. if id == i then true else v i)
replay (disconnected id ∷ events) v = replay events (λ i. if id == i then false else v i)

pub record IsLive (v : ℕ → Bool) (s : Ids) : Type 0 where
  pub live : (k id : ℕ) → get k s.devices_id_map ≡ some id → v id ≡ true
  pub below : (k id : ℕ) → get k s.devices_id_map ≡ some id → id < s.counter
  pub single :
      (j k id : ℕ) → get j s.devices_id_map ≡ some id → get k s.devices_id_map ≡ some id → j ≡ k

module _ (v : ℕ → Bool) (s : Ids) (l : IsLive v s) where
  arrive-IsLive :
      (d : AnyDeviceInfo) → s.counter + 1 < 2 ^ 64 → IsLive (replay (arrive d s).1 v) (arrive d s).0
  unfolding arrive
  arrive-IsLive d h =
      let next : (s.counter + 1) % 2 ^ 64 ≡ s.counter + 1 = omega arith in
      record {
        live = λ k id e.
            ground (arith, get-insert (opaque_id d) k s.counter s.devices_id_map, l.live k id);
        below = λ k id e.
            ground
              (arith, next, get-insert (opaque_id d) k s.counter s.devices_id_map, l.below k id);
        single = λ j k id p q. ground (
          arith,
          get-insert (opaque_id d) j s.counter s.devices_id_map,
          get-insert (opaque_id d) k s.counter s.devices_id_map,
          l.single j k id,
          l.below j id,
          l.below k id,
        );
      }

  leave_known-IsLive :
      (opaque : ℕ) (o : Option ℕ)
      → get opaque s.devices_id_map ≡ o
      → IsLive (replay (leave_known opaque s o).1 v) (leave_known opaque s o).0
  leave_known-IsLive opaque none h = l
  leave_known-IsLive opaque (some i) h = record {
    live = λ k id e.
        ground (arith, get-remove opaque k s.devices_id_map, l.live k id, l.single opaque k id);
    below = λ k id e. ground (arith, get-remove opaque k s.devices_id_map, l.below k id);
    single = λ j k id p q. ground (
      arith,
      get-remove opaque j s.devices_id_map,
      get-remove opaque k s.devices_id_map,
      l.single j k id,
    );
  }

replay-append :
    (as' bs : List Event) (v : ℕ → Bool) → replay (as' ++ bs) v ≡ replay bs (replay as' v)
replay-append [] bs v = refl
replay-append (connected d id ∷ as') bs v =
    replay-append as' bs (λ i. if id == i then true else v i)
replay-append (disconnected id ∷ as') bs v =
    replay-append as' bs (λ i. if id == i then false else v i)

-- Events one after the other.
abbrev pub watch_all {ℓ} :
    {E : Type ℓ} → (E → Ids → Ids × List Event) → List E → Ids → Ids × List Event
watch_all watch [] s = (s, [])
watch_all watch (e ∷ es) s =
    let (s', events) = watch e s in let (s'', rest) = watch_all watch es s' in (s'', events ++ rest)

-- One event keeps the invariant and takes at most one id.
abbrev Keeps {ℓ} : {E : Type ℓ} → (E → Ids → Ids × List Event) → Type ℓ
Keeps {E = E} watch =
    (e : E) (v : ℕ → Bool) (s : Ids)
    → IsLive v s
    → s.counter + 1 < 2 ^ 64
    → IsLive (replay (watch e s).1 v) (watch e s).0 × ((watch e s).0.counter ≤ s.counter + 1)

watch_all-IsLive {ℓ} :
    {E : Type ℓ} (watch : E → Ids → Ids × List Event) (es : List E) (v : ℕ → Bool) (s : Ids)
    → Keeps watch
    → IsLive v s
    → s.counter + length es < 2 ^ 64
    → IsLive (replay (watch_all watch es s).1 v) (watch_all watch es s).0
watch_all-IsLive watch [] v s keeps l h = l
watch_all-IsLive watch (e ∷ es) v s keeps l h =
    let (s', events) = watch e s in
    let (l', grows) = keeps e v s l (omega arith) in
    rw (replay-append events (watch_all watch es s').1 v)
      (watch_all-IsLive watch es (replay events v) s' keeps l' (omega arith))

arrive-counter :
    (d : AnyDeviceInfo) (s : Ids) → s.counter + 1 < 2 ^ 64 → (arrive d s).0.counter ≤ s.counter + 1
unfolding arrive
arrive-counter d s h = omega arith

leave-counter :
    (opaque : ℕ) (s : Ids) (o : Option ℕ) → (leave_known opaque s o).0.counter ≤ s.counter + 1
leave-counter opaque s none = omega arith
leave-counter opaque s (some id) = omega arith

leave-IsLive :
    (v : ℕ → Bool) (s : Ids) (opaque : ℕ)
    → IsLive v s
    → IsLive (replay (leave opaque s).1 v) (leave opaque s).0
unfolding leave
leave-IsLive v s opaque l = leave_known-IsLive v s l opaque (get opaque s.devices_id_map) refl

watch_rusb-Keeps : Keeps watch_rusb
unfolding watch_rusb leave
watch_rusb-Keeps (arrived d) v s l h = (arrive-IsLive v s l (rusb d) h, arrive-counter (rusb d) s h)
watch_rusb-Keeps (left d) v s l h = (
  leave-IsLive v s (opaque_id (rusb d)) l,
  leave-counter (opaque_id (rusb d)) s (get (opaque_id (rusb d)) s.devices_id_map),
)

watch_nusb-Keeps : Keeps watch_nusb
unfolding watch_nusb leave
watch_nusb-Keeps (plugged d) v s l h = elim (Bool-cases (d.vendor_id == apple_vid)) [
  | inl apple ↦ rw apple (arrive-IsLive v s l (nusb d) h, arrive-counter (nusb d) s h)
  | inr other ↦ rw other (l, omega arith)
]
watch_nusb-Keeps (unplugged hash) v s l h =
    (leave-IsLive v s hash l, leave-counter hash s (get hash s.devices_id_map))

abbrev pub start : ℕ → Ids
start counter = record { counter = counter; devices_id_map = [] }

start-IsLive : (counter : ℕ) → IsLive (λ i. false) (start counter)
start-IsLive counter = record {
  live = λ k id e. ground arith;
  below = λ k id e. ground arith;
  single = λ j k id p q. ground arith;
}

-- Over any events, while the counter does not wrap, each device of the map has an id that was reported as connected
-- and not as disconnected since, and no two devices have the same; with rusb.
pub watch_rusb-IsLive :
    (es : List UsbEvent) (counter : ℕ)
    → counter + length es < 2 ^ 64
    → IsLive
        (replay (watch_all watch_rusb es (start counter)).1 λ i. false)
        (watch_all watch_rusb es (start counter)).0
watch_rusb-IsLive es counter h =
    watch_all-IsLive watch_rusb es (λ i. false) (start counter) watch_rusb-Keeps
      (start-IsLive counter) h

-- The same with nusb.
pub watch_nusb-IsLive :
    (es : List HotplugEvent) (counter : ℕ)
    → counter + length es < 2 ^ 64
    → IsLive
        (replay (watch_all watch_nusb es (start counter)).1 λ i. false)
        (watch_all watch_nusb es (start counter)).0
watch_nusb-IsLive es counter h =
    watch_all-IsLive watch_nusb es (λ i. false) (start counter) watch_nusb-Keeps
      (start-IsLive counter) h

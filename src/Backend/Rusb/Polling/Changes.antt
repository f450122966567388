-- ===== src/Backend/Rusb/Polling/Changes.antt =====
-- The events of a polling stream against the listings.
use rusbmux.Base.{
  ℕ, ◌≡◌, refl, sym, ap, ◌∙◌, ◌==◌, ◌&&◌, ◌||◌, Bool, true, false, Option, none, some, List, [],
  ◌∷◌, ◌++◌, if◌then◌else◌, arith, Bool-cases, Option-cases, inl, inr,
}
use rusbmux.Base.Map.{get, insert, IsMap, Fresh, get-insert, insert-IsMap}
use rusbmux.Backend.{DeviceInfo, rusb, opaque_id, apple_vid}
use rusbmux.Backend.Hotplug.{UsbEvent, arrived, left}
use rusbmux.Backend.Rusb.Polling.{
  Listing, Known, PollingStream, gather, arrivals, removals, scan, next_from, next,
}

abbrev pub key : DeviceInfo → ℕ
key d = opaque_id (rusb d)

-- What a reader of the events knows to be there, by opaque ids.
abbrev pub replay : List UsbEvent → (ℕ → Bool) → ℕ → Bool
replay [] v = v
replay (arrived d ∷ events) v = replay events (λ i. if key d == i then true else v i)
replay (left d ∷ events) v = replay events (λ i. if key d == i then false else v i)

abbrev pub present : Option DeviceInfo → Bool
present none = false
present (some d) = true

-- A listing with each device once, under its opaque id.
pub record IsListing (m : Known) : Type 0 where
  pub is_map : IsMap m
  pub own_key : (k : ℕ) (d : DeviceInfo) → get k m ≡ some d → key d ≡ k

rest-IsListing :
    (k : ℕ) (d : DeviceInfo) (m : Known)
    → IsListing ((k, d) ∷ m)
    → (key d ≡ k) × Fresh k m × IsListing m
rest-IsListing k d m l = (
  l.own_key k d (ground arith),
  l.is_map.0,
  record { is_map = l.is_map.1; own_key = λ j e h. ground (arith, l.own_key j e, l.is_map.0) },
)

gather-IsListing : (ds : Listing) (m : Known) → IsListing m → IsListing (gather ds m)
gather-IsListing [] m l = l
gather-IsListing ((d, readable) ∷ ds) m l =
    elim (Bool-cases (readable && (d.vendor_id == apple_vid))) [
      | inl taken ↦ rw taken (
          gather-IsListing ds (insert (key d) d m) (record {
            is_map = insert-IsMap (key d) d m l.is_map;
            own_key = λ k e h. ground (arith, get-insert (key d) k d m, l.own_key k e);
          }))
      | inr passed ↦ rw passed (gather-IsListing ds m l)
    ]

replay-arrivals :
    (known m : Known) (v : ℕ → Bool) (j : ℕ)
    → IsListing m
    → replay (arrivals known m) v j
      ≡ (if present (get j m) then if present (get j known) then v j else true else v j)
replay-arrivals known [] v j l = refl
replay-arrivals known ((k, d) ∷ m) v j l =
    let (own, fresh, l') = rest-IsListing k d m l in
    let v' : ℕ → Bool = λ i. if key d == i then true else v i in
    ground (
      arith,
      own,
      fresh,
      replay-arrivals known m v j l',
      replay-arrivals known m v' j l',
      Option-cases (get k known),
      Option-cases (get j m),
    )

replay-removals :
    (current m : Known) (v : ℕ → Bool) (j : ℕ)
    → IsListing m
    → replay (removals current m) v j
      ≡ (if present (get j m) then if present (get j current) then v j else false else v j)
replay-removals current [] v j l = refl
replay-removals current ((k, d) ∷ m) v j l =
    let (own, fresh, l') = rest-IsListing k d m l in
    let v' : ℕ → Bool = λ i. if key d == i then false else v i in
    ground (
      arith,
      own,
      fresh,
      replay-removals current m v j l',
      replay-removals current m v' j l',
      Option-cases (get k current),
      Option-cases (get j m),
    )

replay-append :
    (as' bs : List UsbEvent) (v : ℕ → Bool) (j : ℕ)
    → replay (as' ++ bs) v j ≡ replay bs (replay as' v) j
replay-append [] bs v j = refl
replay-append (arrived d ∷ as') bs v j =
    replay-append as' bs (λ i. if key d == i then true else v i) j
replay-append (left d ∷ as') bs v j =
    replay-append as' bs (λ i. if key d == i then false else v i) j

-- Events make of equal views equal views.
replay-same :
    (events : List UsbEvent) (v w : ℕ → Bool)
    → ((i : ℕ) → v i ≡ w i)
    → (j : ℕ) → replay events v j ≡ replay events w j
replay-same [] v w h j = h j
replay-same (arrived d ∷ events) v w h j =
    replay-same events (λ i. if key d == i then true else v i)
      (λ i. if key d == i then true else w i) (λ i. ap (λ b. if key d == i then true else b) (h i))
      j
replay-same (left d ∷ events) v w h j =
    replay-same events (λ i. if key d == i then false else v i)
      (λ i. if key d == i then false else w i)
      (λ i. ap (λ b. if key d == i then false else b) (h i)) j

-- Between two listings, the arrivals and then the removals lead from the one to the other.
replay-changes :
    (known current : Known) (v : ℕ → Bool) (j : ℕ)
    → IsListing known
    → IsListing current
    → v j ≡ present (get j known)
    → replay (arrivals known current ++ removals current known) v j ≡ present (get j current)
replay-changes known current v j lk lc h =
    let w : ℕ → Bool = replay (arrivals known current) v in
    replay-append (arrivals known current) (removals current known) v j
    ∙ ground (
      arith,
      replay-removals current known w j lk,
      replay-arrivals known current v j lc,
      h,
      Option-cases (get j known),
      Option-cases (get j current),
    )

-- What a reader knows, once it has the events that wait, is the last listing.
pub record IsPolled (v : ℕ → Bool) (s : PollingStream) : Type 0 where
  pub listing : IsListing s.known
  pub agrees : (j : ℕ) → replay s.waiting v j ≡ present (get j s.known)

scan-IsPolled :
    (ds : Listing) (v : ℕ → Bool) (s : PollingStream) → IsPolled v s → IsPolled v (scan ds s)
unfolding scan
scan-IsPolled ds v s p =
    let current = gather ds [] in
    let empty : IsListing [] = record { is_map = tt; own_key = λ k d h. ground arith } in
    let listed : IsListing current = gather-IsListing ds [] empty in
    record {
      listing = listed;
      agrees = λ j.
          replay-append s.waiting (arrivals s.known current ++ removals current s.known) v j
          ∙ replay-changes s.known current (replay s.waiting v) j p.listing listed (p.agrees j);
    }

-- What is left of the stream once an event has been taken.
abbrev pub Taken : (ℕ → Bool) → Option (UsbEvent × PollingStream × List (Option Listing)) → Type 0
Taken v none = Unit
Taken v (some (e, s, listings)) = IsPolled (replay (e ∷ []) v) s

next_from-Taken :
    (listings : List (Option Listing)) (s : PollingStream) (es : List UsbEvent) (v : ℕ → Bool)
    → s.waiting ≡ es
    → IsPolled v s
    → Taken v (next_from listings s es)
next_from-Taken listings s (arrived d ∷ es) v h p = record {
  listing = p.listing;
  agrees = λ j. ap (λ events. replay events v j) (sym h) ∙ p.agrees j;
}
next_from-Taken listings s (left d ∷ es) v h p = record {
  listing = p.listing;
  agrees = λ j. ap (λ events. replay events v j) (sym h) ∙ p.agrees j;
}
next_from-Taken [] s [] v h p = tt
next_from-Taken (none ∷ listings) s [] v h p = next_from-Taken listings s [] v h p
next_from-Taken (some ds ∷ listings) s [] v h p =
    next_from-Taken listings (scan ds s) (scan ds s).waiting v refl (scan-IsPolled ds v s p)

-- Whether a listing has a device under an opaque id: one of Apple whose descriptor can be read.
pub listed : Listing → ℕ → Bool
listed [] j = false
listed ((d, readable) ∷ ds) j =
    (readable && ((d.vendor_id == apple_vid) && (key d == j))) || listed ds j

gather-listed :
    (ds : Listing) (m : Known) (j : ℕ)
    → present (get j (gather ds m)) ≡ (listed ds j || present (get j m))
unfolding listed
gather-listed [] m j = refl
gather-listed ((d, readable) ∷ ds) m j = ground (
  arith,
  gather-listed ds m j,
  gather-listed ds (insert (key d) d m) j,
  get-insert (key d) j d m,
  Bool-cases (listed ds j),
)

-- The last listing that has not failed, or what stood before where there is none.
abbrev pub listed_after : Option Listing → (ℕ → Bool) → ℕ → Bool
listed_after none w = w
listed_after (some ds) w = listed ds

pub last_listed : List (Option Listing) → (ℕ → Bool) → ℕ → Bool
last_listed [] w = w
last_listed (o ∷ listings) w = last_listed listings (listed_after o w)

-- A stream that waits has told its reader what the last listing has. One that gives an event has made some of
-- the listings, and with that event and those that wait the reader comes to know what the last of them has.
abbrev pub Reports :
    (ℕ → Bool)
    → (ℕ → Bool)
    → List (Option Listing)
    → Option (UsbEvent × PollingStream × List (Option Listing))
    → Type 0
Reports v w listings none = (j : ℕ) → v j ≡ last_listed listings w j
Reports v w listings (some (e, s, rest)) =
    (made : List (Option Listing)) × (listings ≡ made ++ rest)
    × ((j : ℕ) → replay (e ∷ s.waiting) v j ≡ last_listed made w j)

later-Reports :
    (v w : ℕ → Bool) (o : Option Listing) (listings : List (Option Listing))
    (r : Option (UsbEvent × PollingStream × List (Option Listing)))
    → Reports v (listed_after o w) listings r
    → Reports v w (o ∷ listings) r
unfolding last_listed
later-Reports v w o listings none h = h
later-Reports v w o listings (some (e, s, rest)) (made, split, knows) =
    (o ∷ made, ap (λ ls. o ∷ ls) split, knows)

scan-listed :
    (ds : Listing) (v : ℕ → Bool) (s : PollingStream)
    → IsPolled v (scan ds s)
    → (j : ℕ) → replay (scan ds s).waiting v j ≡ listed ds j
unfolding scan
scan-listed ds v s p j =
    p.agrees j ∙ gather-listed ds [] j ∙ ground (arith, Bool-cases (listed ds j))

next_from-Reports :
    (listings : List (Option Listing)) (s : PollingStream) (es : List UsbEvent) (v w : ℕ → Bool)
    → s.waiting ≡ es
    → IsPolled v s
    → ((j : ℕ) → replay s.waiting v j ≡ w j)
    → Reports v w listings (next_from listings s es)
unfolding last_listed
next_from-Reports listings s (e ∷ es) v w h p agrees =
    ([], refl, λ j. ap (λ events. replay events v j) (sym h) ∙ agrees j)
next_from-Reports [] s [] v w h p agrees = λ j. ap (λ events. replay events v j) (sym h) ∙ agrees j
next_from-Reports (none ∷ listings) s [] v w h p agrees =
    later-Reports v w none listings (next_from listings s [])
      (next_from-Reports listings s [] v w h p agrees)
next_from-Reports (some ds ∷ listings) s [] v w h p agrees =
    let polled = scan-IsPolled ds v s p in
    later-Reports v w (some ds) listings (next_from listings (scan ds s) (scan ds s).waiting) (
      next_from-Reports listings (scan ds s) (scan ds s).waiting v (listed ds) refl polled
        (scan-listed ds v s polled))

-- The polling stream reports the changes between the listings, whatever listings the loop makes and whichever of them
-- fail. Where it gives an event, the reader comes to know, with that event and those that wait, exactly the
-- devices of Apple with a readable descriptor in the last of the listings that were made; where it still waits,
-- the reader knows those of the last listing. What it is to know stays what the stream has recorded.
pub next-IsPolled :
    (listings : List (Option Listing)) (s : PollingStream) (v : ℕ → Bool)
    → IsPolled v s
    → Taken v (next listings s) × Reports v (replay s.waiting v) listings (next listings s)
unfolding next
next-IsPolled listings s v p = (
  next_from-Taken listings s s.waiting v refl p,
  next_from-Reports listings s s.waiting v (replay s.waiting v) refl p λ j. refl,
)

pub new-IsPolled : IsPolled (λ i. false) (record { known = []; waiting = [] })
new-IsPolled = record {
  listing = record { is_map = tt; own_key = λ k d h. ground arith };
  agrees = λ j. refl;
}

-- A stream that waits for nothing has told its reader exactly what the last listing had.
pub polled_reader :
    (v : ℕ → Bool) (s : PollingStream) (j : ℕ)
    → IsPolled v s
    → s.waiting ≡ []
    → v j ≡ present (get j s.known)
polled_reader v s j p h = ap (λ events. replay events v j) (sym h) ∙ p.agrees j

-- ===== src/Watcher/Resolve/Found.antt =====
-- A device that `resolve_service` gives has a pairing file that fits it.
use rusbmux.Base.{
  ℕ, ◌≡◌, ◌⊎◌, inl, inr, refl, Bool, true, Option, none, some, List, [], ◌∷◌, arith, Bool-cases,
  Option-cases,
}
use rusbmux.NetworkDevice.{IpAddr}
use rusbmux.Watcher.{same}
use rusbmux.Watcher.Resolve.{
  ResolvedService, ResolvedDevice, PairingFile, Saved, first_v6, first_v4, prefer, before_at,
  get_udid_from_mac_addr, has_tag, decoded, match_tags, with_tags, find_udid_from_txt, udid_of,
  device_of, resolve_service,
}

-- Some file of this stem fits.
abbrev pub HasFile : (PairingFile → Bool) → List ℕ → Saved → Type 0
HasFile fits udid [] = ⊥
HasFile fits udid ((u, f) ∷ fs) = ((u ≡ udid) × (fits f ≡ true)) ⊎ HasFile fits udid fs

by_mac :
    (mac udid : List ℕ) (files : Saved)
    → get_udid_from_mac_addr mac files ≡ some udid
    → HasFile (λ f. same mac f.wifi_mac_address) udid files
by_mac mac udid [] h = ground arith
by_mac mac udid ((u, f) ∷ fs) h = elim (Bool-cases (same mac f.wifi_mac_address)) [
  | inl e ↦ inl (ground arith, e)
  | inr e ↦ inr (by_mac mac udid fs (ground arith))
]

by_tag :
    (derive : List ℕ → List ℕ → List ℕ) (identifier udid : List ℕ) (tags : List (List ℕ))
    (files : Saved)
    → match_tags derive identifier tags files ≡ some udid
    → HasFile (λ f. has_tag (derive f.host_id identifier) tags) udid files
by_tag derive identifier udid tags [] h = ground arith
by_tag derive identifier udid tags ((u, f) ∷ fs) h =
    elim (Bool-cases (has_tag (derive f.host_id identifier) tags)) [
      | inl e ↦ inl (ground arith, e)
      | inr e ↦ inr (by_tag derive identifier udid tags fs (ground arith))
    ]

module _ (decode : List ℕ → Option (List ℕ)) (derive : List ℕ → List ℕ → List ℕ)
    (files : Saved) where
  -- How a pairing file fits a service: by a tag where there is an identifier and a tag, else by the MAC address.
  abbrev pub fits_service : List ℕ → Option (List ℕ) → List (List ℕ) → PairingFile → Bool
  fits_service mac none tags f = same mac f.wifi_mac_address
  fits_service mac (some identifier) [] f = same mac f.wifi_mac_address
  fits_service mac (some identifier) (t ∷ ts) f =
      has_tag (derive f.host_id identifier) (decoded decode (t ∷ ts))

  with_tags-HasFile :
      (identifier udid : List ℕ) (tags : List (List ℕ))
      → with_tags derive identifier files tags ≡ some udid
      → HasFile (λ f. has_tag (derive f.host_id identifier) tags) udid files
  with_tags-HasFile identifier udid [] h = ground arith
  with_tags-HasFile identifier udid (t ∷ ts) h = by_tag derive identifier udid (t ∷ ts) files h

  udid_of-HasFile :
      (mac udid : List ℕ) (identifier : Option (List ℕ)) (tags : List (List ℕ))
      → udid_of decode derive files mac identifier tags ≡ some udid
      → HasFile (fits_service mac identifier tags) udid files
  unfolding find_udid_from_txt
  udid_of-HasFile mac udid none tags h = by_mac mac udid files h
  udid_of-HasFile mac udid (some identifier) [] h = by_mac mac udid files h
  udid_of-HasFile mac udid (some identifier) (t ∷ ts) h =
      with_tags-HasFile identifier udid (decoded decode (t ∷ ts)) h

  device-HasFile :
      (rs : ResolvedService) (addr : IpAddr × Option IpAddr × ℕ) (o : Option (List ℕ))
      (d : ResolvedDevice)
      → udid_of decode derive files (before_at rs.fullname) rs.identifier rs.auth_tags ≡ o
      → device_of decode derive files rs addr o ≡ some d
      → (HasFile (fits_service d.mac_address rs.identifier rs.auth_tags) d.udid files)
        × (d.mac_address ≡ before_at rs.fullname)
  device-HasFile rs addr none d found h = ground arith
  device-HasFile rs addr (some udid) d found h =
      let same_udid : d.udid ≡ udid = ground arith in
      let same_mac : d.mac_address ≡ before_at rs.fullname = ground arith in
      (
        rw (same_udid, same_mac)
            (udid_of-HasFile (before_at rs.fullname) udid rs.identifier rs.auth_tags found),
        same_mac,
      )

  -- A service is made a device only under the stem of a pairing file that fits it: by one of its tags where it has an
  -- identifier and a tag, and otherwise by its MAC address, which stands before the first `@` of its name.
  pub resolve_service-HasFile :
      (rs : ResolvedService) (d : ResolvedDevice)
      → resolve_service decode derive files rs ≡ some (some d)
      → (HasFile (fits_service d.mac_address rs.identifier rs.auth_tags) d.udid files)
        × (d.mac_address ≡ before_at rs.fullname)
  unfolding resolve_service
  resolve_service-HasFile rs d h =
      let o = udid_of decode derive files (before_at rs.fullname) rs.identifier rs.auth_tags in
      elim (Option-cases (prefer (first_v6 rs.addresses) (first_v4 rs.addresses))) [
        | inl no_address ↦ ground arith
        | inr (addr, e) ↦ device-HasFile rs addr o d refl (ground arith)
      ]

-- ===== src/Driver/Listing/Blocks.antt =====
-- The scan of the listing beside the blocks that blank lines delimit.
use mathlib.Core.Option
use rusbmux.Base.{
  ℕ, zero, suc, ◌≡◌, refl, ap, ◌∙◌, sym, ◌≤◌, ◌<◌, false, Option, none, some, List, [], ◌∷◌, ◌++◌,
  length, ◌≢◌, inl, inr, arith, Bool-cases, Option-cases, if◌then◌else◌,
}
use rusbmux.Driver.Text.{trim, strip_prefix}
use rusbmux.Driver.Listing.{
  PnpEntity, Fields, no_fields, instance_key, description_key, manufacturer_key, driver_key,
  is_blank, skip_blank, read_line, collect, listed, scan,
}

-- The lines of a listing in blocks: blank lines stand between blocks and belong to none.
abbrev add_to_first : List ℕ → List (List (List ℕ)) → List (List (List ℕ))
add_to_first l [] = (l ∷ []) ∷ []
add_to_first l (b ∷ bs) = (l ∷ b) ∷ bs

abbrev attach : List ℕ → List (List ℕ) → List (List (List ℕ)) → List (List (List ℕ))
attach l [] bs = (l ∷ []) ∷ bs
attach l (m ∷ ls) bs = if is_blank m then (l ∷ []) ∷ bs else add_to_first l bs

unfoldable pub blocks : List (List ℕ) → List (List (List ℕ))
blocks [] = []
blocks (l ∷ ls) = let rest = blocks ls in if is_blank l then rest else attach l ls rest

-- What the last line of the block with this key says behind it.
abbrev later : Option (List ℕ) → Option (List ℕ) → Option (List ℕ)
later (some v) w = some v
later none w = w

unfoldable pub field : List ℕ → List (List ℕ) → Option (List ℕ)
field key [] = none
field key (l ∷ b) = later (field key b) (Option.map trim (strip_prefix key (trim l)))

unfoldable pub fields : List (List ℕ) → Fields
unfolding field
fields b = record {
  instance_id = field instance_key b;
  device_desc = field description_key b;
  manufacturer = field manufacturer_key b;
  driver_name = field driver_key b;
}

unfoldable pub listed_in : List (List (List ℕ)) → List PnpEntity
unfolding fields
listed_in [] = []
listed_in (b ∷ bs) = listed (fields b) ++ listed_in bs

-- The first block of lines that start with one, and what is behind it.
first_block : List (List ℕ) → List (List ℕ)
first_block [] = []
first_block (l ∷ ls) = let rest = first_block ls in if is_blank l then [] else l ∷ rest

after_block : List (List ℕ) → List (List ℕ)
after_block [] = []
after_block (l ∷ ls) = let rest = after_block ls in if is_blank l then ls else rest

blocks-cons :
    (l : List ℕ) (ls : List (List ℕ))
    → is_blank l ≡ false
    → blocks (l ∷ ls) ≡ (l ∷ first_block ls) ∷ blocks (after_block ls)
unfolding blocks first_block after_block
blocks-cons l [] h = rw h
blocks-cons l (m ∷ ls) h = elim (Bool-cases (is_blank m)) [
  | inl e ↦ rw (h, e)
  | inr e ↦ rw h (rw e (ap (add_to_first l) (sym (ground arith) ∙ blocks-cons m ls e)))
]

blocks-skip_blank : (ls : List (List ℕ)) → blocks ls ≡ blocks (skip_blank ls)
unfolding blocks skip_blank
blocks-skip_blank [] = refl
blocks-skip_blank (l ∷ ls) = ground (arith, blocks-skip_blank ls)

length-after_block : (ls : List (List ℕ)) → length (after_block ls) ≤ length ls
unfolding after_block
length-after_block [] = omega arith
length-after_block (l ∷ ls) = ground (arith, length-after_block ls)

length-skip_blank : (ls : List (List ℕ)) → length (skip_blank ls) ≤ length ls
unfolding skip_blank
length-skip_blank [] = omega arith
length-skip_blank (l ∷ ls) = ground (arith, length-skip_blank ls)

-- What is left once blank lines are skipped starts with no blank line.
abbrev StartsFull : List (List ℕ) → Type 0
StartsFull [] = Unit
StartsFull (l ∷ ls) = is_blank l ≡ false

skip_blank-StartsFull : (ls : List (List ℕ)) → StartsFull (skip_blank ls)
unfolding skip_blank
skip_blank-StartsFull [] = tt
skip_blank-StartsFull (l ∷ ls) = elim (Bool-cases (is_blank l)) [
  | inl e ↦ rw e (skip_blank-StartsFull ls)
  | inr e ↦ rw e e
]

-- A line fills at most one of the variables, the one whose key it starts with.
update : List ℕ → Fields → Fields
update s d = record {
  instance_id = later (Option.map trim (strip_prefix instance_key s)) d.instance_id;
  device_desc = later (Option.map trim (strip_prefix description_key s)) d.device_desc;
  manufacturer = later (Option.map trim (strip_prefix manufacturer_key s)) d.manufacturer;
  driver_name = later (Option.map trim (strip_prefix driver_key s)) d.driver_name;
}

-- No text starts with both prefixes.
abbrev Apart : List ℕ → List ℕ → Type 0
Apart p q = (s v : List ℕ) → strip_prefix p s ≡ some v → strip_prefix q s ≡ none

Apart-here : (a b : ℕ) (p q : List ℕ) → a ≢ b → Apart (a ∷ p) (b ∷ q)
unfolding strip_prefix
Apart-here a b p q ne [] v h = refl
Apart-here a b p q ne (c ∷ s) v h = ground arith

Apart-later : (a : ℕ) (p q : List ℕ) → Apart p q → Apart (a ∷ p) (a ∷ q)
unfolding strip_prefix
Apart-later a p q h [] v e = refl
Apart-later a p q h (c ∷ s) v e = ground (arith, h s v)

instance_description : Apart instance_key description_key
instance_description = Apart-here _ _ _ _ (omega arith)

instance_manufacturer : Apart instance_key manufacturer_key
instance_manufacturer = Apart-here _ _ _ _ (omega arith)

instance_driver : Apart instance_key driver_key
instance_driver = Apart-here _ _ _ _ (omega arith)

description_manufacturer : Apart description_key manufacturer_key
description_manufacturer = Apart-here _ _ _ _ (omega arith)

description_driver : Apart description_key driver_key
description_driver = Apart-later _ _ _ (Apart-here _ _ _ _ (omega arith))

manufacturer_driver : Apart manufacturer_key driver_key
manufacturer_driver = Apart-here _ _ _ _ (omega arith)

read_line-update : (s : List ℕ) (d : Fields) → read_line s d ≡ update s d
unfolding read_line update
read_line-update s d = elim (Option-cases (strip_prefix instance_key s)) [
  | inr (v, i) ↦
      rw (i, instance_description s v i, instance_manufacturer s v i, instance_driver s v i)
  | inl ni ↦ elim (Option-cases (strip_prefix description_key s)) [
    | inr (v, e) ↦ rw (ni, e, description_manufacturer s v e, description_driver s v e)
    | inl ne ↦ elim (Option-cases (strip_prefix manufacturer_key s)) [
      | inr (v, m) ↦ rw (ni, ne, m, manufacturer_driver s v m)
      | inl nm ↦ elim (Option-cases (strip_prefix driver_key s)) [
        | inr (v, r) ↦ rw (ni, ne, nm, r)
        | inl nr ↦ rw (ni, ne, nm, nr)
      ]
    ]
  ]
]

over : Fields → Fields → Fields
over new old = record {
  instance_id = later new.instance_id old.instance_id;
  device_desc = later new.device_desc old.device_desc;
  manufacturer = later new.manufacturer old.manufacturer;
  driver_name = later new.driver_name old.driver_name;
}

later_assoc : (a b c : Option (List ℕ)) → later a (later b c) ≡ later (later a b) c
later_assoc none b c = refl
later_assoc (some a) b c = refl

over-update :
    (l : List ℕ) (b : List (List ℕ)) (d : Fields)
    → over (fields b) (update (trim l) d) ≡ over (fields (l ∷ b)) d
unfolding over update fields field
over-update l b d = simp later_assoc

collect-fields :
    (ls : List (List ℕ)) (d : Fields)
    → collect ls d ≡ (over (fields (first_block ls)) d, after_block ls)
unfolding collect first_block after_block over fields field
collect-fields [] d = refl
collect-fields (l ∷ ls) d = elim (Bool-cases (is_blank l)) [
  | inl e ↦ rw e refl
  | inr e ↦ rw e (
      collect-fields ls (read_line (trim l) d)
      ∙ ap (λ u. (over (fields (first_block ls)) u, after_block ls)) (read_line-update (trim l) d)
      ∙ ap (λ u. (u, after_block ls)) (over-update l (first_block ls) d))
]

over-no_fields : (d : Fields) → over d no_fields ≡ d
unfolding over
over-no_fields d = ground arith

-- One round of the outer loop, where the lines that are left start with a block or are none.
scan_round :
    (fuel : ℕ) (ls m : List (List ℕ))
    → skip_blank ls ≡ m
    → StartsFull m
    → length m < suc fuel
    → ((ls' : List (List ℕ)) → length ls' < fuel → scan fuel ls' ≡ listed_in (blocks ls'))
    → scan (suc fuel) ls ≡ listed_in (blocks m)
unfolding scan listed_in blocks
scan_round fuel ls [] e full short ih = rw (e, scan) refl
scan_round fuel ls (l ∷ m) e full short ih =
    let after : after_block (l ∷ m) ≡ after_block m = unfold after_block in rw full refl in
    let front : first_block (l ∷ m) ≡ l ∷ first_block m = unfold first_block in rw full refl in
    rw (e, scan)
      (rw (collect-fields (l ∷ m) no_fields, over-no_fields)
        (rw (blocks-cons l m full, front, after)
          (ap (λ r. listed (fields (l ∷ first_block m)) ++ r)
            (ih (after_block m) (omega (arith, length-after_block m))))))

-- With fuel above the number of lines the scan adds what each block of the listing adds, in order.
pub scan-blocks :
    (fuel : ℕ) (ls : List (List ℕ)) → length ls < fuel → scan fuel ls ≡ listed_in (blocks ls)
scan-blocks zero ls h = absurd (omega arith)
scan-blocks (suc fuel) ls h = rw (blocks-skip_blank ls) (
    scan_round fuel ls (skip_blank ls) refl (skip_blank-StartsFull ls)
      (omega (arith, length-skip_blank ls)) (scan-blocks fuel))

-- ===== src/Store/Evidence/Preferred.antt =====
-- Which address is preferred among the evidence of a device.
use lan_fence.Base.{
  All, Bool-cases, List, String, [], arith, false, if◌then◌else◌, inl, inr, lookup, or_else, refl,
  some, true, ◌<◌, ◌∙◌, ◌∷◌, ◌≡◌, ◌≤◌, ◌⊎◌,
}
use lan_fence.Store.Evidence.{address_lt, address_priority, min_from, preferred_address}
use lan_fence.Store.State.{AddressRow, Store}

-- `best` has the most trusted kind of source, and of that kind it is the latest.
abbrev pub NotWorse : AddressRow → AddressRow → Type 0
NotWorse best r =
    (address_priority best.source < address_priority r.source)
    ⊎ ((address_priority best.source ≡ address_priority r.source) × (r.last_seen ≤ best.last_seen))

abbrev pub Among : AddressRow → List AddressRow → Type 0
Among a [] = ⊥
Among a (x ∷ xs) = (a ≡ x) ⊎ Among a xs

NotWorse-trans : (a b c : AddressRow) → NotWorse a b → NotWorse b c → NotWorse a c
NotWorse-trans a b c h k = ground arith

-- the test of the loop of `min`
better : (x best : AddressRow) → address_lt x best ≡ true → NotWorse x best
better x best h = ground arith

not_better : (x best : AddressRow) → address_lt x best ≡ false → NotWorse best x
not_better x best h = ground arith

-- the row that the loop carries on, of the two that it compares
abbrev picked : AddressRow → AddressRow → AddressRow
picked x best = if address_lt x best then x else best

NotWorse-refl : (a : AddressRow) → NotWorse a a
NotWorse-refl a = inr (refl, omega arith)

picked-NotWorse : (x best : AddressRow) → NotWorse (picked x best) best × NotWorse (picked x best) x
picked-NotWorse x best = elim (Bool-cases (address_lt x best)) [
  | inl e ↦ rw e (better x best e, NotWorse-refl x)
  | inr e ↦ rw e (NotWorse-refl best, not_better x best e)
]

picked-Among : (x best : AddressRow) → (picked x best ≡ x) ⊎ (picked x best ≡ best)
picked-Among x best = ground arith

min_from-best :
    (best : AddressRow) (xs : List AddressRow)
    → NotWorse (min_from address_lt best xs) best × All (NotWorse (min_from address_lt best xs)) xs
unfolding min_from
min_from-best best [] = (NotWorse-refl best, tt)
min_from-best best (x ∷ xs) =
    let m = min_from address_lt (picked x best) xs in
    let ih = min_from-best (picked x best) xs in
    let p = picked-NotWorse x best in
    (
      NotWorse-trans m (picked x best) best ih.0 p.0,
      (NotWorse-trans m (picked x best) x ih.0 p.1, ih.1),
    )

Among-shift :
    (m x best : AddressRow) (xs : List AddressRow)
    → Among m (picked x best ∷ xs)
    → Among m (best ∷ x ∷ xs)
Among-shift m x best xs (inr r) = inr (inr r)
Among-shift m x best xs (inl e) = elim (picked-Among x best) [
  | inl p ↦ inr (inl (e ∙ p))
  | inr p ↦ inl (e ∙ p)
]

min_from-Among :
    (best : AddressRow) (xs : List AddressRow) → Among (min_from address_lt best xs) (best ∷ xs)
unfolding min_from
min_from-Among best [] = inl refl
min_from-Among best (x ∷ xs) =
    Among-shift (min_from address_lt (picked x best) xs) x best xs
      (min_from-Among (picked x best) xs)

-- the retained address evidence of a device
abbrev pub evidence_for : String → Store → List AddressRow
evidence_for mac s = or_else (lookup mac s.addresses) []

-- A device with evidence rows has a preferred address, which is the address of one of them; and no
-- row has a more trusted kind of source (observed directly before reported by a DHCP server before
-- imported), nor the same kind and a later sighting.
pub preferred_address-best :
    (mac : String) (s : Store) (row : AddressRow) (rows : List AddressRow)
    → evidence_for mac s ≡ row ∷ rows
    → (best : AddressRow) × (preferred_address mac s ≡ some best.ip)
      × Among best (row ∷ rows)
      × All (NotWorse best) (row ∷ rows)
unfolding preferred_address
preferred_address-best mac s row rows h =
    (min_from address_lt row rows, rw h refl, min_from-Among row rows, min_from-best row rows)

-- ===== src/Engine/Coalesce/Lossless.antt =====
-- Coalescing a batch loses no distinct sighting.
use lan_fence.Base.{
  All, Bool, Bool-cases, List, [], any, arith, false, if◌then◌else◌, inl, inr, leb, refl, true,
  ◌&&◌, ◌∷◌, ◌≡◌,
}
use lan_fence.Engine.Coalesce.{
  ArpSighting, add_sighting, coalesce_from, coalesce_sightings, same_key,
}
use lan_fence.Engine.Coalesce.Keys.{same_key_refl, same_key_sym, same_key_trans}

-- a sighting with the same key, seen no earlier
abbrev pub covers : ArpSighting → ArpSighting → Bool
covers x y = same_key x y && leb x.seen_at y.seen_at

-- whether the sighting is covered by one of the list
abbrev pub is_covered : ArpSighting → List ArpSighting → Bool
is_covered x ys = any (covers x) ys

covers_trans : (a b c : ArpSighting) → covers a b ≡ true → covers b c ≡ true → covers a c ≡ true
covers_trans a b c h k = ground (arith, same_key_trans a b c)

-- the newest of two sightings of one key, as the loop keeps it
abbrev newest : ArpSighting → ArpSighting → ArpSighting
newest x y = if leb y.seen_at x.seen_at then x else y

newest-covers :
    (x y : ArpSighting)
    → same_key x y ≡ true
    → (covers x (newest x y) ≡ true) × (covers y (newest x y) ≡ true)
newest-covers x y h = ground (arith, same_key_refl x, same_key_refl y, same_key_sym x y)

-- a step covers its sighting and all that was covered before
is_covered-add_sighting_self :
    (x : ArpSighting) (ys : List ArpSighting) → is_covered x (add_sighting x ys) ≡ true
unfolding add_sighting
is_covered-add_sighting_self x [] = ground (arith, same_key_refl x)
is_covered-add_sighting_self x (y ∷ ys) = elim (Bool-cases (same_key x y)) [
  | inl e ↦ rw e (ground (arith, newest-covers x y e))
  | inr e ↦ rw e (ground (arith, is_covered-add_sighting_self x ys))
]

is_covered-add_sighting :
    (z x : ArpSighting) (ys : List ArpSighting)
    → is_covered z ys ≡ true
    → is_covered z (add_sighting x ys) ≡ true
unfolding add_sighting
is_covered-add_sighting z x [] h = cc
is_covered-add_sighting z x (y ∷ ys) h = elim (Bool-cases (same_key x y)) [
  | inl e ↦ rw e (ground (arith, newest-covers x y e, covers_trans z y (newest x y)))
  | inr e ↦ rw e (ground (arith, is_covered-add_sighting z x ys))
]

is_covered-coalesce_from :
    (z : ArpSighting) (latest xs : List ArpSighting)
    → is_covered z latest ≡ true
    → is_covered z (coalesce_from latest xs) ≡ true
unfolding coalesce_from
is_covered-coalesce_from z latest [] h = h
is_covered-coalesce_from z latest (x ∷ xs) h =
    is_covered-coalesce_from z (add_sighting x latest) xs (is_covered-add_sighting z x latest h)

covered_from :
    (latest xs : List ArpSighting) → All (λ z. is_covered z (coalesce_from latest xs) ≡ true) xs
unfolding coalesce_from
covered_from latest [] = tt
covered_from latest (x ∷ xs) = (
  is_covered-coalesce_from x (add_sighting x latest) xs (is_covered-add_sighting_self x latest),
  covered_from (add_sighting x latest) xs,
)

-- no two of the list have the same key
abbrev pub AllDistinct : List ArpSighting → Type 0
AllDistinct [] = Unit
AllDistinct (x ∷ xs) = (any (same_key x) xs ≡ false) × AllDistinct xs

any-add_sighting :
    (z x : ArpSighting) (ys : List ArpSighting)
    → any (same_key z) ys ≡ false
    → same_key z x ≡ false
    → any (same_key z) (add_sighting x ys) ≡ false
unfolding add_sighting
any-add_sighting z x [] h k = ground arith
any-add_sighting z x (y ∷ ys) h k = ground (arith, any-add_sighting z x ys)

same_key-cong : (a b c : ArpSighting) → same_key a b ≡ true → same_key a c ≡ same_key b c
same_key-cong a b c h = ground (arith, same_key_sym a b, same_key_trans a b c, same_key_trans b a c)

any-cong :
    (a b : ArpSighting) (ys : List ArpSighting)
    → same_key a b ≡ true
    → any (same_key b) ys ≡ false
    → any (same_key a) ys ≡ false
any-cong a b [] h k = refl
any-cong a b (y ∷ ys) h k = ground (arith, same_key-cong a b y h, any-cong a b ys h)

newest-same_key : (x y : ArpSighting) → same_key x y ≡ true → same_key (newest x y) y ≡ true
newest-same_key x y h = ground (arith, same_key_refl y)

AllDistinct-add_sighting :
    (x : ArpSighting) (ys : List ArpSighting) → AllDistinct ys → AllDistinct (add_sighting x ys)
unfolding add_sighting
AllDistinct-add_sighting x [] h = (refl, tt)
AllDistinct-add_sighting x (y ∷ ys) h = elim (Bool-cases (same_key x y)) [
  | inl e ↦ rw e (any-cong (newest x y) y ys (newest-same_key x y e) h.0, h.1)
  | inr e ↦ rw e (
    any-add_sighting y x ys h.0 (ground (arith, same_key_sym y x)),
    AllDistinct-add_sighting x ys h.1,
  )
]

AllDistinct-coalesce_from :
    (latest xs : List ArpSighting) → AllDistinct latest → AllDistinct (coalesce_from latest xs)
unfolding coalesce_from
AllDistinct-coalesce_from latest [] h = h
AllDistinct-coalesce_from latest (x ∷ xs) h =
    AllDistinct-coalesce_from (add_sighting x latest) xs (AllDistinct-add_sighting x latest h)

-- what holds of the sightings of both lists holds of every sighting kept
All-add_sighting :
    (P : ArpSighting → Type 0) (x : ArpSighting) (ys : List ArpSighting)
    → P x
    → All P ys
    → All P (add_sighting x ys)
unfolding add_sighting
All-add_sighting P x [] p h = (p, tt)
All-add_sighting P x (y ∷ ys) p h = elim (Bool-cases (same_key x y)) [
  | inl e ↦
      rw e (elim (Bool-cases (leb y.seen_at x.seen_at)) [ inl l ↦ rw l (p, h.1) | inr l ↦ rw l h ])
  | inr e ↦ rw e (h.0, All-add_sighting P x ys p h.1)
]

All-coalesce_from :
    (P : ArpSighting → Type 0) (latest xs : List ArpSighting)
    → All P latest
    → All P xs
    → All P (coalesce_from latest xs)
unfolding coalesce_from
All-coalesce_from P latest [] h k = h
All-coalesce_from P latest (x ∷ xs) h k =
    All-coalesce_from P (add_sighting x latest) xs (All-add_sighting P x latest k.0 h) k.1

-- Coalescing a batch keeps, for every sighting of the batch, one with the same MAC, address,
-- hostname, source and interface that was seen no earlier; no two that it keeps agree in all five;
-- and whatever holds of every sighting of the batch holds of every one it keeps.
pub coalesce_sightings-lossless :
    (P : ArpSighting → Type 0) (xs : List ArpSighting)
    → All P xs
    → All (λ z. is_covered z (coalesce_sightings xs) ≡ true) xs
      × AllDistinct (coalesce_sightings xs)
      × All P (coalesce_sightings xs)
unfolding coalesce_sightings
coalesce_sightings-lossless P xs h =
    (covered_from [] xs, AllDistinct-coalesce_from [] xs tt, All-coalesce_from P [] xs tt h)

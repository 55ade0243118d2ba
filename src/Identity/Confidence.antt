-- ===== src/Identity/Confidence.antt =====
-- lanfence/identity.py: how sure an identity is.
use lan_fence.Base.{
  All, List, Option, String, [], ap, arith, eq_iff, false, lookup, map, none, or_else, refl, some,
  str_eq, suc, true, upsert, zero, ℕ, ◌+◌, ◌∙◌, ◌∷◌, ◌≡◌,
}
use lan_fence.Identity.{
  IdentityField, IdentityRule, category_field, confidence_sum, conflicts, evidence_item,
  family_field, field_totals, judged, maker_field, platform_field, signed_weight, winner,
}
use lan_fence.Models.Signed.{pos, ◌+ℤ◌}
use lan_fence.Risk.{clamp}
use Prim.Native.Nat.{min}

-- the sum of the weights
abbrev pub weight_sum : List IdentityRule → ℕ
weight_sum [] = 0
weight_sum (r ∷ rs) = r.weight + weight_sum rs

confidence_sum-agreeing :
    (winners : IdentityField → Option String) (rs : List IdentityRule)
    → All (λ (r : IdentityRule). conflicts winners r ≡ false) rs
    → confidence_sum (map (evidence_item winners) rs) ≡ pos (weight_sum rs)
confidence_sum-agreeing winners [] h = refl
confidence_sum-agreeing winners (r ∷ rs) h = rw (h.0, confidence_sum-agreeing winners rs h.1) refl

-- Where no matched rule asserts a value that lost, the confidence is the sum of the weights of the
-- matched rules, but at most 100.
pub judged-agreeing :
    (matched : List IdentityRule)
    → All (λ (r : IdentityRule). conflicts (λ f. winner f matched) r ≡ false) matched
    → (judged matched).confidence ≡ min (weight_sum matched) 100
unfolding judged
judged-agreeing matched h =
    ap clamp (confidence_sum-agreeing (λ f. winner f matched) matched h) ∙ ground arith

-- the field is asserted by neither rule
unasserted :
    (f : IdentityField) (r s : IdentityRule)
    → r.asserts f ≡ none
    → s.asserts f ≡ none
    → winner f (r ∷ s ∷ []) ≡ none
unfolding winner field_totals
unasserted f r s h k = rw (h, k) refl

-- the field is asserted by both, with the same weight
first_of_two :
    (f : IdentityField) (r s : IdentityRule) (a b : String)
    → r.asserts f ≡ some a
    → s.asserts f ≡ some b
    → str_eq a b ≡ false
    → r.weight ≡ s.weight
    → winner f (r ∷ s ∷ []) ≡ some a
unfolding winner field_totals lookup upsert
first_of_two f r s a b p q n w = rw (p, q) (ground (arith, eq_iff a b, eq_iff b a, eq_iff a a))

-- a rule whose category won
not_contested :
    (winners : IdentityField → Option String) (r : IdentityRule) (a : String)
    → r.asserts category_field ≡ some a
    → winners category_field ≡ some a
    → (r.asserts maker_field ≡ none)
      × (r.asserts family_field ≡ none)
      × (r.asserts platform_field ≡ none)
    → conflicts winners r ≡ false
not_contested winners r a p q h = rw (h.0, h.1, h.2, p, q) (ground (arith, eq_iff a a))

contested :
    (winners : IdentityField → Option String) (r : IdentityRule) (a b : String)
    → r.asserts category_field ≡ some b
    → winners category_field ≡ some a
    → str_eq a b ≡ false
    → conflicts winners r ≡ true
contested winners r a b p q n = ground (arith, p, q, n)

opposed : (w : ℕ) → pos w +ℤ (signed_weight true w +ℤ pos 0) ≡ pos 0
opposed zero = refl
opposed (suc w) = ground arith

-- When the matched rules are one that asserts only a category, and then one of the same weight that
-- asserts another category, there is no confidence, though both matched: the device counts as not
-- known, under the category of the first.
pub judged-contested :
    (r s : IdentityRule) (a b : String)
    → r.asserts category_field ≡ some a
    → s.asserts category_field ≡ some b
    → str_eq a b ≡ false
    → r.weight ≡ s.weight
    → (r.asserts maker_field ≡ none)
      × (r.asserts family_field ≡ none)
      × (r.asserts platform_field ≡ none)
    → ((judged (r ∷ s ∷ [])).category ≡ a) × ((judged (r ∷ s ∷ [])).confidence ≡ 0)
unfolding judged
judged-contested r s a b p q n w h =
    let winners : IdentityField → Option String = λ f. winner f (r ∷ s ∷ []) in
    let cat : winners category_field ≡ some a = first_of_two category_field r s a b p q n w in
    (
      ap (λ o. or_else o "Unknown") cat,
      rw (not_contested winners r a p cat h, contested winners s a b q cat n, ← w)
          (ap clamp (opposed r.weight)),
    )

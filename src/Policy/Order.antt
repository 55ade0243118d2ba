-- ===== src/Policy/Order.antt =====
-- The order of the policies: the first that matches decides.
use lan_fence.Base.{
  All, Bool, Bool-cases, List, Option, [], any, ap, arith, false, find, if◌then◌else◌, inl, inr,
  leb, none, not, opt_str_eq, refl, some, some_and, str_eq, sym, true, ◌&&◌, ◌++◌, ◌==◌, ◌||◌, ◌∙◌,
  ◌∷◌, ◌≡◌,
}
use lan_fence.Changes.{is_admin_service, significance_at_least}
use lan_fence.Models.Change.{ChangeEvent, change_eq, change_index, level_index, significance_index}
use lan_fence.Policy.{
  DeviceContext, Policy, differs, is_level, is_text, match_policy, matches, not_in,
}
use mathlib.Core.Bool.{true≢false}

module _ {ℓ} {A : Type ℓ} (p : A → Bool) where
  find-split :
      (xs : List A) (a : A)
      → find p xs ≡ some a
      → (before : List A) × (after : List A) × (xs ≡ before ++ a ∷ after)
        × (any p before ≡ false)
        × (p a ≡ true)
  find-split [] a h = cc
  find-split (x ∷ xs) a h = elim (Bool-cases (p x)) [
    | inl e ↦
        let same : x ≡ a = ground arith in
        ([], xs, ap (λ y. y ∷ xs) same, refl, sym (ap p same) ∙ e)
    | inr e ↦
        let (before, after, eq, none_before, holds) = find-split xs a (ground arith) in
        (x ∷ before, after, ap (λ ys. x ∷ ys) eq, ground arith, holds)
  ]

  find-append : (xs ys : List A) → any p xs ≡ false → find p (xs ++ ys) ≡ find p ys
  find-append [] ys h = refl
  find-append (x ∷ xs) ys h = ground (arith, find-append xs ys)

-- a condition that is not set, or holds
abbrev pub Unless {ℓ} : {A : Type ℓ} → Option A → (A → Bool) → Type 0
Unless none holds = Unit
Unless (some a) holds = holds a ≡ true

-- a list that is empty, or has an element of which the test holds
abbrev pub Among {ℓ} : {A : Type ℓ} → List A → (A → Bool) → Type 0
Among [] holds = Unit
Among (x ∷ xs) holds = any holds (x ∷ xs) ≡ true

-- What it means that a policy applies to a change of a device.
pub record Applies (p : Policy) (e : ChangeEvent) (d : DeviceContext) : Type 0 where
  pub is_on : p.enabled ≡ true
  pub triggered : any (λ t. change_index e.change_type == change_index t) p.triggers ≡ true
  pub trusted : Unless p.conditions.trusted (λ b. (b && d.trusted) || (not b && not d.trusted))
  pub category : Among p.conditions.categories (λ c. str_eq d.category c)
  pub significance :
      Unless p.conditions.min_significance
        (λ s. leb (significance_index s) (significance_index e.significance))
  pub admin : Unless p.conditions.admin_service (λ b.
      (b && is_admin_service e.signal e.subject)
      || (not b && not (is_admin_service e.signal e.subject)))
  pub service : Among p.conditions.services (λ t. opt_str_eq e.subject (some t))
  pub level :
      Among p.conditions.risk_levels
        (λ l. some_and e.current.level (λ k. level_index k == level_index l))
  pub rising :
      Unless p.conditions.rising (λ b. (b && e.current.rising) || (not b && not e.current.rising))

Unless-differs :
    (o : Option Bool) (v : Bool)
    → differs o v ≡ false
    → Unless o (λ b. (b && v) || (not b && not v))
Unless-differs none v h = tt
Unless-differs (some b) v h = ground arith

differs-Unless :
    (o : Option Bool) (v : Bool)
    → Unless o (λ b. (b && v) || (not b && not v))
    → differs o v ≡ false
differs-Unless none v h = refl
differs-Unless (some b) v h = ground arith

Among-not_in {ℓ} : {A : Type ℓ} (p : A → Bool) (xs : List A) → not_in p xs ≡ false → Among xs p
Among-not_in p [] h = tt
Among-not_in p (x ∷ xs) h = ground arith

not_in-Among {ℓ} : {A : Type ℓ} (p : A → Bool) (xs : List A) → Among xs p → not_in p xs ≡ false
not_in-Among p [] h = refl
not_in-Among p (x ∷ xs) h = ground arith

Unless-some_and {ℓ} :
    {A : Type ℓ} (p : A → Bool) (o : Option A) → some_and o (λ a. not (p a)) ≡ false → Unless o p
Unless-some_and p none h = tt
Unless-some_and p (some a) h = ground arith

some_and-Unless {ℓ} :
    {A : Type ℓ} (p : A → Bool) (o : Option A) → Unless o p → some_and o (λ a. not (p a)) ≡ false
some_and-Unless p none h = refl
some_and-Unless p (some a) h = ground arith

-- an early `return False` that was not taken
passed : (b c : Bool) → (if b then false else c) ≡ true → (b ≡ false) × (c ≡ true)
passed b c h = ground arith

matches-Applies :
    (p : Policy) (e : ChangeEvent) (d : DeviceContext) → matches p e d ≡ true → Applies p e d
unfolding matches significance_at_least
matches-Applies p e d h =
    let a = passed (not p.enabled || not (any (change_eq e.change_type) p.triggers)) _ h in
    let b = passed _ _ a.1 in
    let c = passed _ _ b.1 in
    let s = passed _ _ c.1 in
    let t = passed _ _ s.1 in
    let u = passed _ _ t.1 in
    let v = passed _ _ u.1 in
    let w = passed (differs p.conditions.rising e.current.rising) true v.1 in
    record {
      is_on = ground (arith, a.0);
      triggered = ground (arith, a.0);
      trusted = Unless-differs p.conditions.trusted d.trusted b.0;
      category = Among-not_in (str_eq d.category) p.conditions.categories c.0;
      significance = Unless-some_and _ p.conditions.min_significance s.0;
      admin = Unless-differs p.conditions.admin_service (is_admin_service e.signal e.subject) t.0;
      service = Among-not_in (is_text e.subject) p.conditions.services u.0;
      level = Among-not_in (is_level e.current.level) p.conditions.risk_levels v.0;
      rising = Unless-differs p.conditions.rising e.current.rising w.0;
    }

Applies-matches :
    (p : Policy) (e : ChangeEvent) (d : DeviceContext) → Applies p e d → matches p e d ≡ true
unfolding matches significance_at_least
Applies-matches p e d h =
    let enabled : (not p.enabled || not (any (change_eq e.change_type) p.triggers)) ≡ false =
      ground (arith, h.is_on, h.triggered) in
    rw
      (
        enabled,
        differs-Unless p.conditions.trusted d.trusted h.trusted,
        not_in-Among (str_eq d.category) p.conditions.categories h.category,
        some_and-Unless (λ s. leb (significance_index s) (significance_index e.significance))
            p.conditions.min_significance h.significance,
        differs-Unless p.conditions.admin_service (is_admin_service e.signal e.subject) h.admin,
        not_in-Among (is_text e.subject) p.conditions.services h.service,
        not_in-Among (is_level e.current.level) p.conditions.risk_levels h.level,
        differs-Unless p.conditions.rising e.current.rising h.rising,
      )
      refl

not-Applies :
    (p : Policy) (e : ChangeEvent) (d : DeviceContext) → matches p e d ≡ false → ¬ Applies p e d
not-Applies p e d h a = true≢false (sym (Applies-matches p e d a) ∙ h)

none-Applies :
    (e : ChangeEvent) (d : DeviceContext) (ps : List Policy)
    → any (λ q. matches q e d) ps ≡ false
    → All (λ q. ¬ Applies q e d) ps
none-Applies e d [] h = tt
none-Applies e d (p ∷ ps) h = (not-Applies p e d (ground arith), none-Applies e d ps (ground arith))

none_found {ℓ} : {A : Type ℓ} (p : A → Bool) (xs : List A) → find p xs ≡ none → any p xs ≡ false
none_found p [] h = refl
none_found p (x ∷ xs) h = ground (arith, none_found p xs)

-- The first of the policies that applies, if any does.
abbrev pub IsChoice : List Policy → ChangeEvent → DeviceContext → Option Policy → Type 0
IsChoice ps e d none = All (λ q. ¬ Applies q e d) ps
IsChoice ps e d (some p) =
    (before : List Policy) × (after : List Policy) × (ps ≡ before ++ p ∷ after)
    × All (λ q. ¬ Applies q e d) before
    × Applies p e d

choice :
    (ps : List Policy) (e : ChangeEvent) (d : DeviceContext) (o : Option Policy)
    → match_policy ps e d ≡ o
    → IsChoice ps e d o
unfolding match_policy
choice ps e d none h = none-Applies e d ps (none_found (λ q. matches q e d) ps h)
choice ps e d (some p) h =
    let (before, after, eq, unmatched, holds) = find-split (λ q. matches q e d) ps p h in
    (before, after, eq, none-Applies e d before unmatched, matches-Applies p e d holds)

-- The policy that is chosen for a change is enabled, is triggered by the change's type, and has no
-- condition that the change or its device fails, and no policy before it in the list is such. If
-- none is chosen, no policy of the list is such.
pub match_policy-IsChoice :
    (ps : List Policy) (e : ChangeEvent) (d : DeviceContext) → IsChoice ps e d (match_policy ps e d)
match_policy-IsChoice ps e d = choice ps e d (match_policy ps e d) refl

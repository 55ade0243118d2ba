-- ===== src/Engine/Dispatch/Snooze.antt =====
-- `filter_snoozed` after a device was snoozed.
use lan_fence.Base.{
  Bool, List, Option, Option-cases, String, [], arith, coalesce, filter, if◌then◌else◌, inl, inr,
  lookup-upsert, ltb, none_or, not, opt_str_eq, refl, some, str_eq, ℕ, ◌&&◌, ◌<◌, ◌∷◌, ◌≡◌,
}
use lan_fence.Engine.Dispatch.{filter_snoozed}
use lan_fence.Models.Device.{ReviewState, ReviewStateName}
use lan_fence.Models.Finding.{Finding}
use lan_fence.Store.Review.{get_review, is_snoozed, set_snoozed}
use lan_fence.Store.State.{Store}

-- whether the finding is about the device
abbrev pub is_about : String → Finding → Bool
is_about m f = opt_str_eq f.mac (some m)

filter-filter {ℓ} :
    {A : Type ℓ} (p q r : A → Bool) (xs : List A)
    → ((x : A) → r x ≡ (p x && q x))
    → filter r xs ≡ filter p (filter q xs)
filter-filter p q r [] h = refl
filter-filter p q r (x ∷ xs) h = ground (arith, h x, filter-filter p q r xs h)

-- the row that `set_snoozed` writes
abbrev snooze_row : String → ℕ → Option String → ℕ → Store → ReviewState
snooze_row m until notes now s = record {
  state = ReviewStateName.snoozed;
  notes = coalesce notes (get_review m s).notes;
  snoozed_until = some until;
  updated_at = some now;
}

is_snoozed-set_snoozed :
    (m other : String) (until : ℕ) (notes : Option String) (now t : ℕ) (s : Store)
    → is_snoozed other t (set_snoozed m until notes now s)
      ≡ (if str_eq other m then ltb t until else is_snoozed other t s)
unfolding is_snoozed set_snoozed get_review
is_snoozed-set_snoozed m other until notes now t s =
    rw (lookup-upsert m other (snooze_row m until notes now s) s.review) (ground arith)

not_snoozed : ℕ → Store → Finding → Bool
not_snoozed t s f = none_or f.mac (λ m. not (is_snoozed m t s))

not_snoozed-set_snoozed :
    (m : String) (until : ℕ) (notes : Option String) (now t : ℕ) (s : Store) (f : Finding)
    → not_snoozed t (set_snoozed m until notes now s) f
      ≡ (if is_about m f then not (ltb t until) else not_snoozed t s f)
unfolding not_snoozed
not_snoozed-set_snoozed m until notes now t s f = elim (Option-cases f.mac) [
  | inl e ↦ rw e refl
  | inr (other, e) ↦ rw e (ground (arith, is_snoozed-set_snoozed m other until notes now t s))
]

-- While a snooze of a device lasts, the findings that go on to the alerts are those that would have
-- gone on without it, in their order, less the findings about that device.
pub filter_snoozed-set_snoozed :
    (m : String) (until : ℕ) (notes : Option String) (now t : ℕ) (fs : List Finding) (s : Store)
    → t < until
    → filter_snoozed t fs (set_snoozed m until notes now s)
      ≡ filter (λ f. not (is_about m f)) (filter_snoozed t fs s)
unfolding filter_snoozed not_snoozed
filter_snoozed-set_snoozed m until notes now t fs s h =
    filter-filter (λ f. not (is_about m f)) (not_snoozed t s)
      (not_snoozed t (set_snoozed m until notes now s)) fs
      (λ f. ground (arith, not_snoozed-set_snoozed m until notes now t s f))

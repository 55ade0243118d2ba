-- ===== src/Baseline/Saved.antt =====
-- What the rows of a device keep when an item is saved.
use lan_fence.Base.{
  All, All-sort_desc, Bool-cases, List, [], inl, inr, sort_desc, suc, take, zero, ℕ, ◌∷◌,
}
use lan_fence.Models.Baseline.{BaselineItem}
use lan_fence.Store.Items.{bit, is_item, put_item, save_baseline_item}

pub All-take {ℓ κ} :
    {A : Type ℓ} (P : A → Type κ) (n : ℕ) (xs : List A) → All P xs → All P (take n xs)
All-take P zero xs h = tt
All-take P (suc n) [] h = tt
All-take P (suc n) (x ∷ xs) h = (h.0, All-take P n xs h.1)

-- a property that does not depend on when the item was first seen
abbrev pub Timeless : (BaselineItem → Type 0) → BaselineItem → Type 0
Timeless P i = (t : ℕ) → P (record i { first_seen = t })

pub All-put_item :
    (P : BaselineItem → Type 0) (new : BaselineItem) (is : List BaselineItem)
    → Timeless P new
    → All P is
    → All P (put_item new is)
unfolding put_item
All-put_item P new [] n h = (n new.first_seen, tt)
All-put_item P new (i ∷ is) n h = elim (Bool-cases (is_item new.signal new.value i)) [
  | inl e ↦ rw e (n i.first_seen, h.1)
  | inr e ↦ rw e (h.0, All-put_item P new is n h.1)
]

-- What holds of the rows and of the item saved holds of the rows after it.
pub All-save_baseline_item :
    (P : BaselineItem → Type 0) (cap : ℕ) (new : BaselineItem) (rows : List BaselineItem)
    → Timeless P new
    → All P rows
    → All P (save_baseline_item cap new rows)
unfolding save_baseline_item
All-save_baseline_item P cap new rows n h =
    let seen : BaselineItem → ℕ = λ i. i.last_seen in
    let there : BaselineItem → ℕ = λ i. bit i.present in
    let inside : BaselineItem → ℕ = λ i. bit i.in_baseline in
    let a = All-sort_desc seen P (put_item new rows) (All-put_item P new rows n h) in
    let b = All-sort_desc there P (sort_desc seen (put_item new rows)) a in
    All-take P cap (sort_desc inside (sort_desc there (sort_desc seen (put_item new rows))))
      (All-sort_desc inside P (sort_desc there (sort_desc seen (put_item new rows))) b)

-- ===== src/Baseline/Review/Distinct.antt =====
-- The items of a device have different keys, whatever is saved.
use lan_fence.Base.{
  All, All-insert_desc, All-map, All-sort_desc, Bool, List, [], arith, eq_iff, false, if-elim,
  insert_desc, ltb, sort_desc, suc, take, true, zero, ℕ, ◌∷◌, ◌≡◌,
}
use lan_fence.Baseline.Saved.{All-put_item, All-take}
use lan_fence.Models.Baseline.{BaselineItem, signal_text}
use lan_fence.Models.Severity.{rank}
use lan_fence.Store.Items.{is_item, put_item, save_baseline_item}

abbrev pub same_key : BaselineItem → BaselineItem → Bool
same_key i j = is_item i.signal i.value j

abbrev pub Differs : BaselineItem → BaselineItem → Type 0
Differs i j = same_key i j ≡ false

-- PRIMARY KEY (mac, signal, value)
abbrev pub IsDistinct : List BaselineItem → Type 0
IsDistinct [] = Unit
IsDistinct (i ∷ is) = All (Differs i) is × IsDistinct is

Differs-sym : (i j : BaselineItem) → Differs i j → Differs j i
Differs-sym i j h = ground (
  arith,
  eq_iff (signal_text i.signal) (signal_text j.signal),
  eq_iff (signal_text j.signal) (signal_text i.signal),
  eq_iff i.value j.value,
  eq_iff j.value i.value,
)

-- items with one key differ from the same items
pub Differs-trans : (p i j : BaselineItem) → same_key p i ≡ true → Differs i j → Differs p j
Differs-trans p i j h k = ground (
  arith,
  eq_iff (signal_text i.signal) (signal_text p.signal),
  eq_iff (signal_text j.signal) (signal_text p.signal),
  eq_iff (signal_text j.signal) (signal_text i.signal),
  eq_iff i.value p.value,
  eq_iff j.value p.value,
  eq_iff j.value i.value,
)

put_item-IsDistinct :
    (new : BaselineItem) (is : List BaselineItem) → IsDistinct is → IsDistinct (put_item new is)
unfolding put_item
put_item-IsDistinct new [] h = (tt, tt)
put_item-IsDistinct new (i ∷ is) h =
    if-elim IsDistinct (is_item new.signal new.value i)
      (record new { first_seen = i.first_seen } ∷ is) (i ∷ put_item new is)
      (λ e. (All-map (Differs i) (Differs new) is (λ j. Differs-trans new i j e) h.0, h.1))
      (λ e. (
        All-put_item (Differs i) new is (λ t. Differs-sym new i e) h.0,
        put_item-IsDistinct new is h.1,
      ))

insert_desc-IsDistinct :
    (rank : BaselineItem → ℕ) (i : BaselineItem) (is : List BaselineItem)
    → All (Differs i) is
    → IsDistinct is
    → IsDistinct (insert_desc rank i is)
unfolding insert_desc
insert_desc-IsDistinct rank i [] h k = (tt, tt)
insert_desc-IsDistinct rank i (j ∷ js) h k =
    if-elim IsDistinct (ltb (rank i) (rank j)) (j ∷ insert_desc rank i js) (i ∷ j ∷ js)
      (λ e. (
        All-insert_desc rank (Differs j) i js (Differs-sym i j h.0) k.0,
        insert_desc-IsDistinct rank i js h.1 k.1,
      ))
      (λ e. (h, k))

sort_desc-IsDistinct :
    (rank : BaselineItem → ℕ) (is : List BaselineItem)
    → IsDistinct is
    → IsDistinct (sort_desc rank is)
unfolding sort_desc
sort_desc-IsDistinct rank [] h = tt
sort_desc-IsDistinct rank (i ∷ is) h =
    insert_desc-IsDistinct rank i (sort_desc rank is) (All-sort_desc rank (Differs i) is h.0)
      (sort_desc-IsDistinct rank is h.1)

take-IsDistinct : (n : ℕ) (is : List BaselineItem) → IsDistinct is → IsDistinct (take n is)
take-IsDistinct zero is h = tt
take-IsDistinct (suc n) [] h = tt
take-IsDistinct (suc n) (i ∷ is) h = (All-take (Differs i) n is h.0, take-IsDistinct n is h.1)

pub save_baseline_item-IsDistinct :
    (cap : ℕ) (new : BaselineItem) (is : List BaselineItem)
    → IsDistinct is
    → IsDistinct (save_baseline_item cap new is)
unfolding save_baseline_item
save_baseline_item-IsDistinct cap new is h = take-IsDistinct cap _ (
    sort_desc-IsDistinct _ _
      (sort_desc-IsDistinct _ _ (sort_desc-IsDistinct _ _ (put_item-IsDistinct new is h))))

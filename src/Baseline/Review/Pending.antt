-- ===== src/Baseline/Review/Pending.antt =====
-- lanfence/baseline.py: after `accept_pending` nothing is left to accept.
use mathlib.Core.Path.{subst}
use lan_fence.Base.{
  All, All-map, All-sort_desc, Bool, List, String, Table, [], any, ap, arith, eq_iff, filter,
  if-elim, length, lookup, lookup-upsert, not, or_else, refl, sym, true, upsert, ℕ, ◌&&◌, ◌||◌, ◌∙◌,
  ◌∷◌, ◌≡◌,
}
use lan_fence.Baseline.Review.{accept_each, accept_pending, accepted_item}
use lan_fence.Baseline.Review.Distinct.{
  Differs, Differs-trans, IsDistinct, same_key, save_baseline_item-IsDistinct,
}
use lan_fence.Baseline.Saved.{All-take}
use lan_fence.Models.Baseline.{BaselineItem, signal_text}
use lan_fence.Store.Baselines.{
  Baselines, baseline_items, in_order, insert_in_order, item_lt, rows_of, save_item,
}
use lan_fence.Store.Changelog.{Changelog}
use lan_fence.Store.Items.{put_item, save_baseline_item}

-- the item is in the baseline, or one of these has its key
abbrev Covered : List BaselineItem → BaselineItem → Type 0
Covered ps j = (j.in_baseline || any (λ p. same_key p j) ps) ≡ true

-- an item that is accepted covers no item of another key
uncovered :
    (p : BaselineItem) (ps js : List BaselineItem)
    → All (Differs p) js
    → All (Covered (p ∷ ps)) js
    → All (Covered ps) js
uncovered p ps [] k l = tt
uncovered p ps (j ∷ js) k l = (ground (arith, k.0, l.0), uncovered p ps js k.1 l.1)

Covered-put_item :
    (p : BaselineItem) (ps is : List BaselineItem)
    → IsDistinct is
    → All (Covered (p ∷ ps)) is
    → All (Covered ps) (put_item (accepted_item p) is)
unfolding put_item
Covered-put_item p ps [] d h = (refl, tt)
Covered-put_item p ps (i ∷ is) d h =
    if-elim (All (Covered ps)) (same_key p i)
      (record (accepted_item p) { first_seen = i.first_seen } ∷ is)
      (i ∷ put_item (accepted_item p) is)
      (λ e. (
        refl,
        uncovered p ps is (All-map (Differs i) (Differs p) is (λ j. Differs-trans p i j e) d.0) h.1,
      ))
      (λ e. (ground (arith, h.0), Covered-put_item p ps is d.1 h.1))

-- what holds of the rows before the cap holds of the rows saved
All-save :
    (P : BaselineItem → Type 0) (cap : ℕ) (i : BaselineItem) (is : List BaselineItem)
    → All P (put_item i is)
    → All P (save_baseline_item cap i is)
unfolding save_baseline_item
All-save P cap i is h =
    All-take P cap _ (All-sort_desc _ P _ (All-sort_desc _ P _ (All-sort_desc _ P _ h)))

-- `accept_each` on the rows of the device
accept_rows : ℕ → List BaselineItem → List BaselineItem → List BaselineItem
accept_rows cap [] rows = rows
accept_rows cap (p ∷ ps) rows = accept_rows cap ps (save_baseline_item cap (accepted_item p) rows)

saved_rows :
    (mac : String) (rows : List BaselineItem) (items : Table (List BaselineItem))
    → or_else (lookup mac (upsert mac rows items)) [] ≡ rows
saved_rows mac rows items = rw (lookup-upsert mac mac rows items) (ground (arith, eq_iff mac mac))

rows_of-accept_each :
    (mac : String) (ps : List BaselineItem) (t : Baselines)
    → rows_of mac (accept_each mac ps t) ≡ accept_rows t.max_items ps (rows_of mac t)
unfolding accept_each accept_rows save_item
rows_of-accept_each mac [] t = refl
rows_of-accept_each mac (p ∷ ps) t =
    rows_of-accept_each mac ps (save_item mac (accepted_item p) t)
    ∙ ap (accept_rows t.max_items ps)
        (saved_rows mac (save_baseline_item t.max_items (accepted_item p) (rows_of mac t)) t.items)

Covered-accept_rows :
    (cap : ℕ) (ps rows : List BaselineItem)
    → IsDistinct rows
    → All (Covered ps) rows
    → All (Covered []) (accept_rows cap ps rows)
unfolding accept_rows
Covered-accept_rows cap [] rows d h = h
Covered-accept_rows cap (p ∷ ps) rows d h =
    Covered-accept_rows cap ps (save_baseline_item cap (accepted_item p) rows)
      (save_baseline_item-IsDistinct cap (accepted_item p) rows d)
      (All-save (Covered ps) cap (accepted_item p) rows (Covered-put_item p ps rows d h))

-- the key of each item is that of some item of the list that waits, or it does not wait
waiting_any :
    (q : BaselineItem → Bool) (j : BaselineItem) (is : List BaselineItem)
    → any (λ p. same_key p j) (filter q is) ≡ any (λ p. q p && same_key p j) is
waiting_any q j [] = refl
waiting_any q j (i ∷ is) = ground (arith, waiting_any q j is)

any-insert_in_order :
    (f : BaselineItem → Bool) (i : BaselineItem) (is : List BaselineItem)
    → any f (insert_in_order i is) ≡ (f i || any f is)
unfolding insert_in_order
any-insert_in_order f i [] = refl
any-insert_in_order f i (j ∷ js) =
    if-elim (λ l. any f l ≡ (f i || any f (j ∷ js))) (item_lt j i) (j ∷ insert_in_order i js)
      (i ∷ j ∷ js) (λ e. ground (arith, any-insert_in_order f i js)) (λ e. refl)

any-in_order : (f : BaselineItem → Bool) (is : List BaselineItem) → any f (in_order is) ≡ any f is
unfolding in_order
any-in_order f [] = refl
any-in_order f (i ∷ is) =
    any-insert_in_order f i (in_order is) ∙ ap (λ b. f i || b) (any-in_order f is)

same_key_self : (j : BaselineItem) → same_key j j ≡ true
same_key_self j =
    ground (arith, eq_iff (signal_text j.signal) (signal_text j.signal), eq_iff j.value j.value)

waits : BaselineItem → List BaselineItem → Bool
waits j is = any (λ (p : BaselineItem). not p.in_baseline && same_key p j) is

All-waits :
    (is : List BaselineItem) → All (λ (j : BaselineItem). (j.in_baseline || waits j is) ≡ true) is
unfolding waits
All-waits [] = tt
All-waits (i ∷ is) =
    (ground (arith, same_key_self i), All-map _ _ is (λ j h. ground (arith, h)) (All-waits is))

abbrev IsAccepted : BaselineItem → Type 0
IsAccepted i = i.in_baseline ≡ true

All-insert_in_order :
    (i : BaselineItem) (is : List BaselineItem)
    → IsAccepted i
    → All IsAccepted is
    → All IsAccepted (insert_in_order i is)
unfolding insert_in_order
All-insert_in_order i [] h k = (h, tt)
All-insert_in_order i (j ∷ js) h k =
    if-elim (All IsAccepted) (item_lt j i) (j ∷ insert_in_order i js) (i ∷ j ∷ js)
      (λ e. (k.0, All-insert_in_order i js h k.1)) (λ e. (h, k))

-- nothing waits among accepted items
none_waits :
    (is : List BaselineItem)
    → All IsAccepted is
    → length (filter (λ (i : BaselineItem). not i.in_baseline) is) ≡ 0
none_waits [] h = refl
none_waits (i ∷ is) h = ground (arith, none_waits is h.1)

All-in_order : (is : List BaselineItem) → All IsAccepted is → All IsAccepted (in_order is)
unfolding in_order
All-in_order [] h = tt
All-in_order (i ∷ is) h = All-insert_in_order i (in_order is) h.0 (All-in_order is h.1)

module _ (mac : String) (now : ℕ) (log : Changelog) (t : Baselines) where
  -- the items that wait, as `accept_pending` reads them
  abbrev pending_items : List BaselineItem
  pending_items = filter (λ (i : BaselineItem). not i.in_baseline) (baseline_items mac t)

  at_start : All (Covered pending_items) (rows_of mac t)
  unfolding baseline_items waits
  at_start =
      All-map _ (Covered pending_items) (rows_of mac t)
        (λ j h.
          ap (λ b. j.in_baseline || b)
            (waiting_any (λ (p : BaselineItem). not p.in_baseline) j (in_order (rows_of mac t))
              ∙ any-in_order (λ (p : BaselineItem). not p.in_baseline && same_key p j)
                  (rows_of mac t))
          ∙ h)
        (All-waits (rows_of mac t))

  -- After `accept_pending` every item of the device is in its baseline, so that a second call finds
  -- nothing to accept. The items of a device have different keys, which is the primary key of the
  -- table.
  pub accept_pending_complete :
      IsDistinct (rows_of mac t)
      → let t' = (accept_pending mac now log t).2 in
        All (λ (i : BaselineItem). i.in_baseline ≡ true) (rows_of mac t')
        × ((accept_pending mac now log t').0 ≡ 0)
  unfolding accept_pending baseline_items
  accept_pending_complete d =
      let rows = accept_rows t.max_items pending_items (rows_of mac t) in
      let covered = Covered-accept_rows t.max_items pending_items (rows_of mac t) d at_start in
      let accepted : All IsAccepted (rows_of mac (accept_each mac pending_items t)) =
        subst (All IsAccepted) (sym (rows_of-accept_each mac pending_items t))
          (All-map (Covered []) IsAccepted rows (λ j h. ground (arith, h)) covered) in
      (accepted, none_waits _ (All-in_order _ accepted))

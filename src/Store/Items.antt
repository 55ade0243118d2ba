-- ===== src/Store/Items.antt =====
-- lanfence/db.py: the baseline items of one device.
use lan_fence.Base.{
  Bool, List, String, [], false, if◌then◌else◌, sort_desc, str_eq, take, true, ℕ, ◌&&◌, ◌∷◌,
}
use lan_fence.Models.Baseline.{BaselineItem, BaselineSignal, signal_text}

abbrev pub is_item : BaselineSignal → String → BaselineItem → Bool
is_item signal value i = str_eq (signal_text i.signal) (signal_text signal) && str_eq i.value value

abbrev pub bit : Bool → ℕ
bit true = 1
bit false = 0

-- INSERT ... ON CONFLICT DO UPDATE: a conflict keeps the row's `first_seen`
unfoldable pub put_item : BaselineItem → List BaselineItem → List BaselineItem
put_item new [] = new ∷ []
put_item new (i ∷ is) =
    let rest = put_item new is in
    if is_item new.signal new.value i
    then record new { first_seen = i.first_seen } ∷ is
    else i ∷ rest

-- `save_baseline_item`, on the rows of the device: the rows beyond the cap go, by
-- ORDER BY in_baseline DESC, present DESC, last_seen DESC
unfoldable pub save_baseline_item : ℕ → BaselineItem → List BaselineItem → List BaselineItem
unfolding put_item
save_baseline_item cap new rows = take cap (
    sort_desc (λ i. bit i.in_baseline)
      (sort_desc (λ i. bit i.present) (sort_desc (λ i. i.last_seen) (put_item new rows))))

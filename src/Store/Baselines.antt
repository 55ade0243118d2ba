-- ===== src/Store/Baselines.antt =====
-- lanfence/db.py: the tables of baselines and of their items.
use lan_fence.Base.{
  Bool, List, Option, String, Table, [], erase, if◌then◌else◌, lookup, or_else, str_eq, upsert, ℕ,
  ◌&&◌, ◌||◌, ◌∷◌,
}
use lan_fence.Models.Baseline.{BaselineItem, DeviceBaseline, signal_text}
use lan_fence.Store.Items.{save_baseline_item}
use lan_fence.Text.{str_lt}

-- the items of a device stand in the order in which they were saved
pub record Baselines : Type 0 where
  pub rows : Table DeviceBaseline
  pub items : Table (List BaselineItem)
  pub max_items : ℕ

unfoldable pub get_baseline : String → Baselines → Option DeviceBaseline
get_baseline mac t = lookup mac t.rows

-- `sorted(set(xs))`
insert_text : String → List String → List String
insert_text s [] = s ∷ []
insert_text s (x ∷ xs) =
    let rest = insert_text s xs in
    if str_eq s x then x ∷ xs else if str_lt s x then s ∷ x ∷ xs else x ∷ rest

unfoldable pub sorted_set : List String → List String
unfolding insert_text
sorted_set [] = []
sorted_set (x ∷ xs) = insert_text x (sorted_set xs)

unfoldable pub save_baseline : String → DeviceBaseline → Baselines → Baselines
save_baseline mac b t = record t {
  rows = upsert mac (record b { excluded_signals = sorted_set b.excluded_signals }) t.rows;
}

unfoldable pub delete_baseline : String → Baselines → Baselines
delete_baseline mac t = record t { rows = erase mac t.rows; items = erase mac t.items }

-- ORDER BY signal, value
abbrev pub item_lt : BaselineItem → BaselineItem → Bool
item_lt i j =
    str_lt (signal_text i.signal) (signal_text j.signal)
    || (str_eq (signal_text i.signal) (signal_text j.signal) && str_lt i.value j.value)

unfoldable pub insert_in_order : BaselineItem → List BaselineItem → List BaselineItem
insert_in_order i [] = i ∷ []
insert_in_order i (j ∷ js) =
    let rest = insert_in_order i js in if item_lt j i then j ∷ rest else i ∷ j ∷ js

unfoldable pub in_order : List BaselineItem → List BaselineItem
unfolding insert_in_order
in_order [] = []
in_order (i ∷ is) = insert_in_order i (in_order is)

abbrev pub rows_of : String → Baselines → List BaselineItem
rows_of mac t = or_else (lookup mac t.items) []

unfoldable pub baseline_items : String → Baselines → List BaselineItem
baseline_items mac t = in_order (rows_of mac t)

unfoldable pub save_item : String → BaselineItem → Baselines → Baselines
save_item mac i t = record t {
  items = upsert mac (save_baseline_item t.max_items i (rows_of mac t)) t.items;
}

-- what `reset_all` does to these tables
unfoldable pub reset_baselines : Baselines → Baselines
reset_baselines t = record t { rows = []; items = [] }

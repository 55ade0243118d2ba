-- ===== src/Baseline/Whole.antt =====
-- lanfence/baseline.py: `_compare` as a whole.
use lan_fence.Base.{
  Bool, List, Option, String, [], elem, if◌then◌else◌, ltb, none, none_or, some, some_and, true, ℕ,
  ◌∷◌,
}
use lan_fence.Baseline.{Comparison, Observed, compare_items}
use lan_fence.Baseline.Ingest.{Detection, record_detected}
use lan_fence.Baseline.Scalars.{
  Subject, is_learning, judge_address, judge_hostname, judge_identity, judge_learning, judge_trust,
  judge_unknown, seeded_baseline,
}
use lan_fence.Models.Baseline.{
  BaselineItem, BaselineSignal, DeviceBaseline, initial, ipv6_prefix, mdns, port, ssdp,
}
use lan_fence.Models.Change.{ChangeEvent}
use lan_fence.Models.Device.{is_online}
use lan_fence.Store.Items.{save_baseline_item}

abbrev server_like_categories : List String
server_like_categories =
    "Server" ∷ "Storage / NAS" ∷ "Network Infrastructure" ∷ "Printer" ∷ "Camera" ∷ []

-- `ports_fresh`
abbrev pub ports_fresh : Subject → DeviceBaseline → Bool
ports_fresh c b =
    some_and c.inspection_at (λ seen. none_or b.inspection_at (λ before. ltb before seen))

abbrev pub comparison : Subject → DeviceBaseline → Comparison
comparison c b = record {
  mac = c.device.mac;
  now = c.now;
  learning = is_learning b;
  trusted = c.device.allowlisted;
  server_like = elem c.effective_category server_like_categories;
  is_present = is_online c.device.status;
  fresh = ports_fresh c b;
  excluded = b.excluded_signals;
  service_removal = c.service_removal;
  cap = c.max_items;
}

abbrev initial_item : ℕ → BaselineSignal → String → BaselineItem
initial_item now signal value = record {
  signal = signal;
  value = value;
  in_baseline = true;
  origin = initial;
  present = true;
  first_seen = now;
  last_seen = now;
  removed_at = none;
}

unfoldable pub seed_values :
    Subject → BaselineSignal → List String → List BaselineItem → List BaselineItem
seed_values c signal [] rows = rows
seed_values c signal (v ∷ vs) rows =
    seed_values c signal vs (save_baseline_item c.max_items (initial_item c.now signal v) rows)

-- the items of a baseline that starts now
unfoldable pub seed_items : Subject → Observed → List BaselineItem → List BaselineItem
seed_items c o rows = seed_values c ipv6_prefix o.prefixes (
    seed_values c ssdp o.ssdp_types
      (seed_values c mdns o.mdns_types (seed_values c port o.ports rows)))

unfoldable pub record_all : List ChangeEvent → Detection → Detection
record_all [] d = d
record_all (e ∷ es) d = record_all es (record_detected e d)

-- after the loop over the signals
abbrev pub note_inspection : Subject → DeviceBaseline → DeviceBaseline
note_inspection c b = if ports_fresh c b then record b { inspection_at = c.inspection_at } else b

-- the comparisons that follow the loop over the signals
unfoldable pub judge_scalars :
    Subject → Bool → DeviceBaseline → Detection → DeviceBaseline × Detection
judge_scalars c learning b d =
    let (b1, d1) = judge_address c learning b d in
    let (b2, d2) = judge_hostname c learning b1 d1 in
    let (b3, d3) = judge_identity c learning b2 d2 in
    let (b4, d4) = judge_trust c b3 d3 in judge_unknown c b4 d4

-- the baseline, the items and what was recorded
unfoldable pub compare_known :
    Subject
    → Observed
    → DeviceBaseline
    → List BaselineItem
    → Detection
    → (DeviceBaseline × Detection) × List BaselineItem
compare_known c o b items d =
    let (b1, d1) = judge_learning c b d in
    let p = compare_items (comparison c b) o items in
    (judge_scalars c (is_learning b) (note_inspection c b1) (record_all p.recorded d1), p.items)

-- `_compare`
unfoldable pub compare_device :
    Subject
    → Observed
    → Option DeviceBaseline
    → List BaselineItem
    → Detection
    → (DeviceBaseline × Detection) × List BaselineItem
compare_device c o none items d = ((seeded_baseline c, d), seed_items c o items)
compare_device c o (some b) items d = compare_known c o b items d

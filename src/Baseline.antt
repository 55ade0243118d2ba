-- ===== src/Baseline.antt =====
-- lanfence/baseline.py: how the services and prefixes of one device are compared with its baseline
-- (the loop over the signals in `_compare`).
pub mod Ingest
pub mod Recent
pub mod Scalars
pub mod Whole
pub mod Review
pub mod Saved
pub mod Learning
pub mod Told
pub mod Reports
use lan_fence.Base.{
  Bool, List, Option, String, [], elem, false, find, if◌then◌else◌, leb, ltb, none, not, some,
  str_eq, true, ℕ, ◌&&◌, ◌++◌, ◌+◌, ◌||◌, ◌∷◌,
}
use lan_fence.Changes.{is_admin_service}
use lan_fence.Models.Baseline.{
  BaselineItem, BaselineSignal, ipv6_prefix, is_advertised, is_port, is_prefix, learned, mdns, port,
  seen_later, signal_text, ssdp,
}
use lan_fence.Models.Change.{
  ChangeEvent, ChangeReviewState, ChangeType, Significance, ipv6_prefix_new, mdns_service_new,
  mdns_service_removed, no_current, service_new, service_removed, ssdp_service_new,
  ssdp_service_removed, unreviewed,
}
use lan_fence.Store.Items.{is_item, save_baseline_item}

-- What the comparison of one device reads besides its items: `learning` of its baseline, its trust
-- and category, the exclusions, and the settings. `fresh` says that there is a newer inspection.
pub record Comparison : Type 0 where
  pub mac : String
  pub now : ℕ
  pub learning : Bool
  pub trusted : Bool
  pub server_like : Bool
  pub is_present : Bool
  pub fresh : Bool
  pub excluded : List String
  pub service_removal : ℕ
  pub cap : ℕ

-- the rows of the device and the changes recorded so far
pub record Progress : Type 0 where
  pub items : List BaselineItem
  pub recorded : List ChangeEvent

-- _NEW_CHANGE and _REMOVED_CHANGE
abbrev pub new_change : BaselineSignal → ChangeType
new_change port = ChangeType.service_new
new_change mdns = ChangeType.mdns_service_new
new_change ssdp = ChangeType.ssdp_service_new
new_change ipv6_prefix = ChangeType.ipv6_prefix_new

abbrev pub removed_change : BaselineSignal → ChangeType
removed_change mdns = ChangeType.mdns_service_removed
removed_change ssdp = ChangeType.ssdp_service_removed
removed_change _ = ChangeType.service_removed

-- a change of the device about one item; the entries of `current` that nothing reads are left out,
-- and the identifier is given by the database
abbrev pub change_of :
    Comparison → ChangeType → BaselineSignal → String → Significance → ChangeEvent
change_of c t signal value significance = record {
  id = none;
  mac = some c.mac;
  subject_id = none;
  change_type = t;
  occurred_at = c.now;
  signal = some (signal_text signal);
  subject = some value;
  current = no_current;
  evidence = [];
  significance = significance;
  suppressed = elem (signal_text signal) c.excluded;
  review_state = ChangeReviewState.unreviewed;
  review_note = none;
  reviewed_at = none;
  snoozed_until = none;
  policy_id = none;
  alerted_at = none;
}

abbrev pub is_admin : BaselineSignal → String → Bool
is_admin signal value = is_admin_service (some (signal_text signal)) (some value)

-- `_new_item_event`
unfoldable pub new_item_event : Comparison → BaselineSignal → String → ChangeEvent
new_item_event c signal value = change_of c (new_change signal) signal value (
    if is_prefix signal
    then Significance.info
    else if is_admin signal value
    then Significance.high
    else if not c.learning && c.trusted && c.server_like
    then Significance.medium
    else Significance.low)

-- `ctx.record`
abbrev pub record_change : ChangeEvent → Progress → Progress
record_change e p = record p { recorded = p.recorded ++ e ∷ [] }

abbrev pub save : Comparison → BaselineItem → Progress → Progress
save c i p = record p { items = save_baseline_item c.cap i p.items }

-- a value that has no item
abbrev pub first_item : Comparison → BaselineSignal → String → BaselineItem
first_item c signal value =
    let absorb = c.learning && not (is_admin signal value) in
    record {
      signal = signal;
      value = value;
      in_baseline = absorb;
      origin = if absorb then learned else seen_later;
      present = true;
      first_seen = c.now;
      last_seen = c.now;
      removed_at = none;
    }

-- _LAST_SEEN_REFRESH, one hour
abbrev pub last_seen_refresh : ℕ
last_seen_refresh = 3600000000

unfoldable pub judge_item :
    Comparison → BaselineSignal → String → Option BaselineItem → Progress → Progress
unfolding new_item_event
judge_item c signal value none p =
    let saved = save c (first_item c signal value) p in
    if c.learning && not (is_admin signal value)
    then saved
    else record_change (new_item_event c signal value) saved
judge_item c signal value (some i) p =
    if not i.present
    then (let saved =
          save c (record i { present = true; removed_at = none; last_seen = c.now }) p in
        if i.in_baseline then saved else record_change (new_item_event c signal value) saved)
    else if leb (i.last_seen + last_seen_refresh) c.now
    then save c (record i { last_seen = c.now }) p
    else p

-- `for value in sorted(values)`; `known` holds the items as they were before the comparison
unfoldable pub judge_values :
    Comparison → List BaselineItem → BaselineSignal → List String → Progress → Progress
unfolding judge_item
judge_values c known signal [] p = p
judge_values c known signal (v ∷ vs) p =
    judge_values c known signal vs (judge_item c signal v (find (is_item signal v) known) p)

unfoldable pub judge_absent :
    Comparison → BaselineSignal → List String → BaselineItem → Progress → Progress
judge_absent c signal values i p =
    if not (str_eq (signal_text i.signal) (signal_text signal))
      || not i.present
      || elem i.value values
    then p
    else if not (is_port signal) && ltb c.now (i.last_seen + c.service_removal)
    then p
    else record_change
        (change_of c (removed_change signal) signal i.value
          (if i.in_baseline then Significance.low else Significance.info))
        (save c (record i { present = false; removed_at = some c.now }) p)

unfoldable pub judge_absences :
    Comparison → BaselineSignal → List String → List BaselineItem → Progress → Progress
unfolding judge_absent
judge_absences c signal values [] p = p
judge_absences c signal values (i ∷ is) p =
    judge_absences c signal values is (judge_absent c signal values i p)

-- one pass of the loop over `observed.items()`
unfoldable pub judge_signal :
    Comparison → List BaselineItem → BaselineSignal → List String → Progress → Progress
unfolding judge_values judge_absences
judge_signal c known signal values p =
    if is_port signal && not c.fresh
    then p
    else if is_advertised signal && not c.is_present
    then p
    else if is_prefix signal
    then judge_values c known signal values p
    else judge_absences c signal values known (judge_values c known signal values p)

-- the dictionary that `_observations` returns: the values of each signal, here sorted
pub record Observed : Type 0 where
  pub ports : List String
  pub mdns_types : List String
  pub ssdp_types : List String
  pub prefixes : List String

unfoldable pub compare_items : Comparison → Observed → List BaselineItem → Progress
unfolding judge_signal
compare_items c o known = judge_signal c known ipv6_prefix o.prefixes (
    judge_signal c known ssdp o.ssdp_types (
      judge_signal c known mdns o.mdns_types
        (judge_signal c known port o.ports (record { items = known; recorded = [] }))))

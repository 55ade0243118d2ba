-- ===== src/Baseline/Review.antt =====
-- lanfence/baseline.py: what an operator does about changes and baselines.
pub mod Actions
pub mod Distinct
pub mod Pending
use lan_fence.Base.{
  Bool, List, Option, String, [], any, coalesce, elem, false, filter, if◌then◌else◌, is_none, leb,
  length, ltb, none, not, opt_str_eq, or_else, or_empty, some, some_and, suc, true, truthy, zero, ℕ,
  ◌&&◌, ◌+◌, ◌||◌, ◌∷◌,
}
use lan_fence.Models.Baseline.{BaselineItem, DeviceBaseline, Origin, signal_text}
use lan_fence.Models.Change.{
  ChangeEvent, ChangeReviewState, ChangeType, Significance, baseline_reset, no_current, unreviewed,
}
use lan_fence.Store.Baselines.{
  Baselines, baseline_items, delete_baseline, get_baseline, save_baseline, save_item, sorted_set,
}
use lan_fence.Store.Changelog.{
  Changelog, change_events_of, get_change_event, record_change_event, update_change_review,
}

-- the actions of `review_change`; the other states stand for themselves
pub data ReviewAction : Type 0 where
  annotate : ReviewAction
  snooze_for : Option ℕ → ReviewAction
  mark : ChangeReviewState → ReviewAction

abbrev one_day : ℕ
one_day = 86400000000

-- `snooze_for or timedelta(days=1)`
abbrev pub snooze_time : Option ℕ → ℕ
snooze_time none = one_day
snooze_time (some zero) = one_day
snooze_time (some (suc n)) = suc n

abbrev is_acceptance : ReviewAction → Bool
is_acceptance (mark ChangeReviewState.accepted) = true
is_acceptance _ = false

-- the signals of items
abbrev is_item_signal : Option String → Bool
is_item_signal none = false
is_item_signal (some s) = elem s ("port" ∷ "mdns" ∷ "ssdp" ∷ "ipv6_prefix" ∷ [])

abbrev accepted_item : BaselineItem → BaselineItem
accepted_item i = record i { in_baseline = true; origin = Origin.accepted }

-- the item that a change is about, waiting for approval
abbrev is_accepted_by : ChangeEvent → BaselineItem → Bool
is_accepted_by e i =
    opt_str_eq e.signal (some (signal_text i.signal))
    && opt_str_eq e.subject (some i.value)
    && not i.in_baseline

unfoldable pub accept_each : String → List BaselineItem → Baselines → Baselines
accept_each mac [] t = t
accept_each mac (i ∷ is) t = accept_each mac is (save_item mac (accepted_item i) t)

abbrev fold_in : ReviewAction → ChangeEvent → Baselines → Baselines
fold_in action e t =
    if is_acceptance action && truthy e.mac && is_item_signal e.signal
    then accept_each (or_empty e.mac)
        (filter (is_accepted_by e) (baseline_items (or_empty e.mac) t)) t
    else t

abbrev pub new_state : ReviewAction → ChangeEvent → ChangeReviewState
new_state annotate e = e.review_state
new_state (snooze_for d) e = ChangeReviewState.snoozed
new_state (mark s) e = s

abbrev pub new_snooze : ReviewAction → ℕ → ChangeEvent → Option ℕ
new_snooze annotate now e = e.snoozed_until
new_snooze (snooze_for d) now e = some (now + snooze_time d)
new_snooze (mark s) now e = none

-- `note` is `none` where none is given: the note of the change is then written again
unfoldable pub review_change :
    ℕ
    → ReviewAction
    → ℕ
    → Option String
    → Changelog
    → Baselines
    → Option ChangeEvent × Changelog × Baselines
review_change n action now note log t = elim (get_change_event n log) [
  | none ↦ (none, log, t)
  | some e ↦
      let (e', log') =
        update_change_review n (new_state action e) now (some (coalesce note e.review_note))
          (new_snooze action now e) log in
      (e', log', fold_in action e t)
]

abbrev has_key : List BaselineItem → ChangeEvent → Bool
has_key items e =
    any
      (λ (i : BaselineItem).
        opt_str_eq e.signal (some (signal_text i.signal)) && opt_str_eq e.subject (some i.value))
      items

abbrev is_accepted_state : ChangeReviewState → Bool
is_accepted_state ChangeReviewState.accepted = true
is_accepted_state _ = false

unfoldable pub accept_changes : ℕ → List ChangeEvent → Changelog → Changelog
accept_changes now [] log = log
accept_changes now (e ∷ es) log =
    accept_changes now es
      (update_change_review (or_else e.id 0) ChangeReviewState.accepted now none none log).1

-- the number of items that were waiting
unfoldable pub accept_pending : String → ℕ → Changelog → Baselines → ℕ × Changelog × Baselines
accept_pending mac now log t =
    let pending = filter (λ (i : BaselineItem). not i.in_baseline) (baseline_items mac t) in
    (
      length pending,
      accept_changes now
          (filter (λ (e : ChangeEvent). has_key pending e && not (is_accepted_state e.review_state))
            (change_events_of mac log))
          log,
      accept_each mac pending t,
    )

unfoldable pub reset_baseline :
    String → ℕ → Changelog → Baselines → (ChangeEvent × Changelog) × Baselines
reset_baseline mac now log t = (
  record_change_event
      (record {
        id = none;
        mac = some mac;
        subject_id = none;
        change_type = ChangeType.baseline_reset;
        occurred_at = now;
        signal = none;
        subject = none;
        current = no_current;
        evidence = [];
        significance = Significance.info;
        suppressed = false;
        review_state = ChangeReviewState.unreviewed;
        review_note = none;
        reviewed_at = none;
        snoozed_until = none;
        policy_id = none;
        alerted_at = none;
      })
      log,
  delete_baseline mac t,
)

unfoldable pub set_excluded_signals :
    String → List String → Baselines → Option DeviceBaseline × Baselines
set_excluded_signals mac signals t = elim (get_baseline mac t) [
  | none ↦ (none, t)
  | some b ↦
      let b' : DeviceBaseline = record b { excluded_signals = sorted_set signals } in
      (some b', save_baseline mac b' t)
]

-- `maturity`
pub data Maturity : Type 0 where
  no_baseline learning_baseline established_baseline stale_baseline : Maturity

unfoldable pub maturity : Option DeviceBaseline → Option ℕ → ℕ → ℕ → Maturity
maturity none last_seen now stale_time = no_baseline
maturity (some b) last_seen now stale_time =
    if some_and last_seen (λ t. leb (t + stale_time) now)
    then stale_baseline
    else if is_none b.established_at
    then learning_baseline
    else established_baseline

-- `compare`: an item now and then, and the status of that pair
pub record ComparisonRow : Type 0 where
  pub item : BaselineItem
  pub was_there : Bool

pub data ItemStatus : Type 0 where
  appeared removed unchanged absent : ItemStatus

unfoldable pub item_status : ComparisonRow → ItemStatus
item_status r =
    if r.item.present && not r.was_there
    then appeared
    else if r.was_there && not r.item.present
    then removed
    else if r.item.present
    then unchanged
    else absent

unfoldable pub compared_with : Option ℕ → BaselineItem → ComparisonRow
compared_with none i = record { item = i; was_there = i.in_baseline }
compared_with (some since) i = record {
  item = i;
  was_there = leb i.first_seen since && (i.present || some_and i.removed_at (λ t. ltb since t));
}

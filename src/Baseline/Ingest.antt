-- ===== src/Baseline/Ingest.antt =====
-- lanfence/baseline.py: lifecycle events become changes, by a cursor over the table of events.
pub mod Pages
pub mod Once
use mathlib.Core.Option
use lan_fence.Allowlist.{AllowEntry, match_entry}
use lan_fence.Base.{
  Bool, List, Option, String, [], false, if◌then◌else◌, is_none, leb, length, ltb, none, not, some,
  some_and, suc, zero, ℕ, ◌&&◌, ◌++◌, ◌-◌, ◌∷◌,
}
use lan_fence.Models.Change.{
  ChangeEvent, ChangeReviewState, ChangeType, Current, Significance, no_current,
}
use lan_fence.Models.Device.{DeviceEvent, EventType, is_always_on}
use lan_fence.Store.Changelog.{
  Changelog, events_after_id, get_cursor, last_disconnection_before, last_id, max_event_id,
  record_change_event, set_cursor,
}
use lan_fence.Store.Presence.{get_presence}
use lan_fence.Store.State.{EventRow, Store}

-- What an ingestion reads besides the database: the allowlist, `long_absence_days`, and Python's
-- `round(seconds / 86400, 1)`, in tenths of a day, on a time away.
pub record Watching : Type 0 where
  pub allowlist : List AllowEntry
  pub long_absence : ℕ
  pub round_days : ℕ → ℕ

-- `_Context`: what was recorded so far, and the tables
pub record Detection : Type 0 where
  pub recorded : List ChangeEvent
  pub log : Changelog

-- `_Context.record`, of an event that no exclusion applies to
unfoldable pub record_detected : ChangeEvent → Detection → Detection
record_detected e d =
    let (saved, log) = record_change_event e d.log in
    record { recorded = d.recorded ++ saved ∷ []; log = log }

abbrev pub change_type_of : EventType → ChangeType
change_type_of EventType.new_device = ChangeType.new_device
change_type_of EventType.reappeared = ChangeType.reappeared
change_type_of EventType.disconnected = ChangeType.disconnected

-- the time away, from the last disconnection
abbrev pub time_away : DeviceEvent → Option DeviceEvent → Option ℕ
time_away e none = none
time_away e (some disconnect) = some (e.timestamp - disconnect.timestamp)

abbrev pub lifecycle_significance : Watching → EventType → Bool → Bool → Option ℕ → Significance
lifecycle_significance w EventType.new_device trusted steady away =
    if trusted then Significance.info else Significance.medium
lifecycle_significance w EventType.reappeared trusted steady away =
    if trusted && some_and away (λ t. leb w.long_absence t)
    then Significance.medium
    else Significance.info
lifecycle_significance w EventType.disconnected trusted steady away =
    if steady then Significance.medium else Significance.info

abbrev lifecycle_current : Watching → EventType → Option ℕ → Current
lifecycle_current w EventType.reappeared away = record no_current {
  absent_days = Option.map w.round_days away;
}
lifecycle_current w _ away = no_current

-- the change that an event is re-expressed as
unfoldable pub lifecycle_change : Watching → Store → EventRow → ChangeEvent
lifecycle_change w s row =
    let event = row.event in
    let away = time_away event (last_disconnection_before event.mac row.id s) in
    record {
      id = none;
      mac = some event.mac;
      subject_id = none;
      change_type = change_type_of event.event_type;
      occurred_at = event.timestamp;
      signal = none;
      subject = none;
      current = lifecycle_current w event.event_type away;
      evidence = [];
      significance =
          lifecycle_significance w event.event_type
            (not (is_none (match_entry event.mac w.allowlist)))
            (is_always_on (get_presence event.mac s).policy) away;
      suppressed = false;
      review_state = ChangeReviewState.unreviewed;
      review_note = none;
      reviewed_at = none;
      snoozed_until = none;
      policy_id = none;
      alerted_at = none;
    }

-- `for row_id, event in rows`
unfoldable pub ingest_rows : Watching → Store → List EventRow → Detection → Detection
ingest_rows w s [] d = d
ingest_rows w s (row ∷ rows) d = ingest_rows w s rows (record_detected (lifecycle_change w s row) d)

abbrev pub with_cursor : String → ℕ → Detection → Detection
with_cursor name n d = record d { log = set_cursor name n d.log }

-- `while True`, with at most `fuel` passes
unfoldable pub ingest_from : ℕ → Watching → Store → ℕ → Detection → Detection
ingest_from zero w s cursor d = d
ingest_from (suc fuel) w s cursor d =
    let rows = events_after_id cursor 1000 s in
    let reached = last_id cursor rows in
    let d' = with_cursor "events" reached (ingest_rows w s rows d) in
    let rest = ingest_from fuel w s reached d' in if ltb (length rows) 1000 then d' else rest

-- `_ingest_lifecycle`; each pass but the last takes a thousand events
unfoldable pub ingest_lifecycle : Watching → Store → Detection → Detection
ingest_lifecycle w s d = elim (get_cursor "events" d.log) [
  | none ↦ with_cursor "events" (max_event_id s) d
  | some cursor ↦ ingest_from (suc (length s.events)) w s cursor d
]

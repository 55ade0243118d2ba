-- ===== src/Store/Changelog.antt =====
-- lanfence/db.py: the table of change events and the cursors of change detection.
use lan_fence.Base.{
  All, Bool, List, Option, String, Table, [], coalesce, false, filter, find, if◌then◌else◌, leb,
  lookup, ltb, map, none, not, opt_str_eq, or_else, some, some_and, sort_desc, str_eq, take, true,
  upsert, ℕ, ◌&&◌, ◌+◌, ◌<◌, ◌==◌, ◌∷◌,
}
use lan_fence.Models.Change.{ChangeEvent, ChangeReviewState}
use lan_fence.Models.Device.{DeviceEvent, EventType}
use lan_fence.Store.State.{EventRow, Store}

-- `rows` stands in falling order of `id`, whose AUTOINCREMENT counter is `seq`.
pub record Changelog : Type 0 where
  pub rows : List ChangeEvent
  pub seq : ℕ
  pub cursors : Table ℕ
  pub max_change_events : ℕ
  pub retention : ℕ

-- the event as it is returned, with its row's identifier, and the table: rows older than the
-- retention and rows beyond the cap are deleted
unfoldable pub record_change_event : ChangeEvent → Changelog → ChangeEvent × Changelog
record_change_event event c =
    let saved : ChangeEvent = record event { id = some (c.seq + 1) } in
    (
      saved,
      record c {
        seq = c.seq + 1;
        rows = take c.max_change_events (
            filter (λ (r : ChangeEvent). not (ltb (r.occurred_at + c.retention) event.occurred_at))
              (saved ∷ c.rows));
      },
    )

abbrev pub has_id : ℕ → ChangeEvent → Bool
has_id n e = some_and e.id (λ k. k == n)

unfoldable pub get_change_event : ℕ → Changelog → Option ChangeEvent
get_change_event n c = find (has_id n) c.rows

-- `change_events(since=since)` and `change_events(mac=mac)`: newest first
unfoldable pub change_events_since : ℕ → Changelog → List ChangeEvent
change_events_since since c =
    sort_desc (λ (r : ChangeEvent). r.occurred_at)
      (filter (λ (r : ChangeEvent). leb since r.occurred_at) c.rows)

unfoldable pub change_events_of : String → Changelog → List ChangeEvent
change_events_of mac c =
    sort_desc (λ (r : ChangeEvent). r.occurred_at)
      (filter (λ (r : ChangeEvent). opt_str_eq r.mac (some mac)) c.rows)

abbrev update_rows : ℕ → (ChangeEvent → ChangeEvent) → Changelog → Changelog
update_rows n f c = record c {
  rows = map (λ (r : ChangeEvent). if has_id n r then f r else r) c.rows;
}

-- UPDATE change_events SET review_state, review_note, reviewed_at, snoozed_until
abbrev pub reviewed_as :
    ChangeReviewState → Option String → ℕ → Option ℕ → ChangeEvent → ChangeEvent
reviewed_as state note now until e = record e {
  review_state = state;
  review_note = note;
  reviewed_at = some now;
  snoozed_until = until;
}

-- `note` is `none` where the argument is not given: the row's note is left as it is
unfoldable pub update_change_review :
    ℕ
    → ChangeReviewState
    → ℕ
    → Option (Option String)
    → Option ℕ
    → Changelog
    → Option ChangeEvent × Changelog
unfolding get_change_event
update_change_review n state now note until c = elim (get_change_event n c) [
  | none ↦ (none, c)
  | some current ↦
      let c' = update_rows n (reviewed_as state (or_else note current.review_note) now until) c in
      (get_change_event n c', c')
]

unfoldable pub set_change_policy : ℕ → Option String → Option ℕ → Changelog → Changelog
set_change_policy n policy_id alerted_at c =
    update_rows n (λ e. record e { policy_id = policy_id; alerted_at = alerted_at }) c

unfoldable pub get_cursor : String → Changelog → Option ℕ
get_cursor name c = lookup name c.cursors

unfoldable pub set_cursor : String → ℕ → Changelog → Changelog
set_cursor name position c = record c { cursors = upsert name position c.cursors }

-- what `reset_all` does to these tables; the counter is kept
unfoldable pub reset_changelog : Changelog → Changelog
reset_changelog c = record c { rows = []; cursors = [] }

-- rows in strictly rising order of `id`
abbrev pub IsRising : List EventRow → Type 0
IsRising [] = Unit
IsRising (r ∷ rs) = All (λ (x : EventRow). r.id < x.id) rs × IsRising rs

-- the reads of `events`, whose rows stand in rising order of `id`
abbrev pub after_id : ℕ → List EventRow → List EventRow
after_id n rows = filter (λ (r : EventRow). ltb n r.id) rows

abbrev pub last_id : ℕ → List EventRow → ℕ
last_id n [] = n
last_id n (r ∷ rs) = last_id r.id rs

unfoldable pub max_event_id : Store → ℕ
max_event_id s = last_id 0 s.events

unfoldable pub events_after_id : ℕ → ℕ → Store → List EventRow
events_after_id n limit s = take limit (after_id n s.events)

abbrev is_disconnection : EventType → Bool
is_disconnection EventType.disconnected = true
is_disconnection _ = false

abbrev last_of : List EventRow → Option DeviceEvent
last_of [] = none
last_of (r ∷ rs) = coalesce (last_of rs) (some r.event)

-- `last_event_before(mac, n, event_type="disconnected")`
unfoldable pub last_disconnection_before : String → ℕ → Store → Option DeviceEvent
last_disconnection_before mac n s = last_of (
    filter
      (λ (r : EventRow).
        str_eq r.event.mac mac && ltb r.id n && is_disconnection r.event.event_type)
      s.events)

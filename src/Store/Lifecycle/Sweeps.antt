-- ===== src/Store/Lifecycle/Sweeps.antt =====
-- An offline evaluation keeps the lifecycle consistent: it disconnects only devices that are online.
use mathlib.Core.Option
use lan_fence.Base.{
  IsKeyed, List, String, Table, [], arith, eq_iff, false, filter-IsKeyed, if◌then◌else◌, is_none,
  lookup, lookup-update, none, some, str_eq, true, update-IsKeyed, ◌&&◌, ◌++◌, ◌+◌, ◌∷◌, ◌≡◌,
}
use lan_fence.Models.Device.{EventType, disconnected, is_online, online}
use lan_fence.Store.Lifecycle.{IsConsistent, accepts, final, row_status, status_after, timeline}
use lan_fence.Store.Lifecycle.Timeline.{accepts-append, final-append, timeline-append}
use lan_fence.Store.Offline.{
  Sweep, gone_event, gone_row, is_expired, is_missed, mark_offline, mark_row, mark_rows, missed_row,
}
use lan_fence.Store.State.{Row, Store, online_rows, record_event}

-- The rows that the loop has still to visit stand in the table as they were fetched, and online.
abbrev AllOnline : Table Row → Table Row → Type 0
AllOnline t [] = Unit
AllOnline t (e ∷ es) = (row_status (lookup e.0 t) ≡ some online) × AllOnline t es

devices-mark_row :
    (sw : Sweep) (mac m : String) (row : Row) (s : Store)
    → str_eq m mac ≡ false
    → lookup m (mark_row sw mac row s).0.devices ≡ lookup m s.devices
unfolding mark_row record_event
devices-mark_row sw mac m row s ne = ground (
  arith,
  lookup-update mac m gone_row s.devices,
  lookup-update mac m (missed_row (row.missed_scans + 1)) s.devices,
)

AllOnline-mark_row :
    (sw : Sweep) (mac : String) (row : Row) (s : Store) (rows : Table Row)
    → is_none (lookup mac rows) ≡ true
    → AllOnline s.devices rows
    → AllOnline (mark_row sw mac row s).0.devices rows
unfolding lookup
AllOnline-mark_row sw mac row s [] absent h = tt
AllOnline-mark_row sw mac row s ((k, r) ∷ rows) absent h = ground (
  arith,
  eq_iff mac k,
  eq_iff k mac,
  devices-mark_row sw mac k row s,
  AllOnline-mark_row sw mac row s rows,
)

-- One pass of the loop over a device that is online keeps the lifecycle consistent.
timeline-mark_row :
    (sw : Sweep) (mac m : String) (row : Row) (s : Store)
    → timeline m (mark_row sw mac row s).0.events ≡ (
        if str_eq m mac && (is_missed sw mac row && is_expired sw row)
        then timeline m s.events ++ disconnected ∷ []
        else timeline m s.events)
unfolding mark_row record_event
timeline-mark_row sw mac m row s = ground (
  arith,
  timeline-append m s.events (record { id = s.event_seq + 1; event = gone_event sw mac row }),
)

status-mark_row :
    (sw : Sweep) (mac m : String) (row : Row) (s : Store)
    → row_status (lookup m (mark_row sw mac row s).0.devices) ≡ (
        if str_eq m mac && (is_missed sw mac row && is_expired sw row)
        then row_status (Option.map gone_row (lookup m s.devices))
        else row_status (lookup m s.devices))
unfolding mark_row record_event
status-mark_row sw mac m row s = ground (
  arith,
  lookup-update mac m gone_row s.devices,
  lookup-update mac m (missed_row (row.missed_scans + 1)) s.devices,
)

IsKeyed-mark_row :
    (sw : Sweep) (mac : String) (row : Row) (s : Store)
    → IsKeyed s.devices
    → IsKeyed (mark_row sw mac row s).0.devices
unfolding mark_row record_event
IsKeyed-mark_row sw mac row s h = ground (
  arith,
  update-IsKeyed mac gone_row s.devices h,
  update-IsKeyed mac (missed_row (row.missed_scans + 1)) s.devices h,
)

lawful_gone :
    (es : List EventType)
    → status_after (final none es) ≡ some online
    → accepts none es ≡ true
    → accepts none (es ++ disconnected ∷ []) ≡ true
lawful_gone es online_now lawful = ground (arith, accepts-append none es disconnected)

mark_row-IsConsistent :
    (sw : Sweep) (mac : String) (row : Row) (s : Store)
    → row_status (lookup mac s.devices) ≡ some online
    → IsConsistent s
    → IsConsistent (mark_row sw mac row s).0
mark_row-IsConsistent sw mac row s on h = record {
  keyed = IsKeyed-mark_row sw mac row s h.keyed;
  is_lawful = λ m. ground (
    arith,
    eq_iff m mac,
    timeline-mark_row sw mac m row s,
    lawful_gone (timeline m s.events),
    h.status_agrees m,
    h.is_lawful m,
  );
  status_agrees = λ m. ground (
    arith,
    eq_iff m mac,
    timeline-mark_row sw mac m row s,
    status-mark_row sw mac m row s,
    final-append none (timeline m s.events) disconnected,
    h.status_agrees m,
  );
}

mark_rows-IsConsistent :
    (sw : Sweep) (rows : Table Row) (s : Store)
    → IsKeyed rows
    → AllOnline s.devices rows
    → IsConsistent s
    → IsConsistent (mark_rows sw rows s).0
unfolding mark_rows
mark_rows-IsConsistent sw [] s k on h = h
mark_rows-IsConsistent sw ((mac, row) ∷ rows) s k on h =
    mark_rows-IsConsistent sw rows (mark_row sw mac row s).0 k.1
      (AllOnline-mark_row sw mac row s rows k.0 on.1) (mark_row-IsConsistent sw mac row s on.0 h)

AllOnline-cons :
    (e : String × Row) (t es : Table Row)
    → is_none (lookup e.0 t) ≡ true
    → AllOnline t es
    → AllOnline (e ∷ t) es
unfolding lookup
AllOnline-cons e t [] a h = tt
AllOnline-cons e t (f ∷ es) a h = (ground (arith, eq_iff f.0 e.0), AllOnline-cons e t es a h.1)

AllOnline-online_rows : (t : Table Row) → IsKeyed t → AllOnline t (online_rows t)
unfolding lookup
AllOnline-online_rows [] k = tt
AllOnline-online_rows ((mac, row) ∷ t) k =
    let rest = AllOnline-cons (mac, row) t (online_rows t) k.0 (AllOnline-online_rows t k.1) in
    ground (arith, eq_iff mac mac, rest)

pub mark_offline-IsConsistent :
    (sw : Sweep) (s : Store) → IsConsistent s → IsConsistent (mark_offline sw s).0
unfolding mark_offline
mark_offline-IsConsistent sw s h =
    mark_rows-IsConsistent sw (online_rows s.devices) s
      (filter-IsKeyed (λ (r : Row). is_online r.status) s.devices h.keyed)
      (AllOnline-online_rows s.devices h.keyed) h

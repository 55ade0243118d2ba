-- ===== src/Store/Lifecycle/Numbered.antt =====
-- The events stand in the order of their identifiers, which are never used twice.
use lan_fence.Base.{
  All, All-append, All-map, Bool, List, Option, String, Table, [], arith, filter, if-elim, lookup,
  none, refl, some, true, ℕ, ◌++◌, ◌+◌, ◌<◌, ◌∷◌, ◌≡◌, ◌≤◌,
}
use lan_fence.Models.Device.{DeviceEvent, EventType}
use lan_fence.Store.Alerts.{consume_global_alert_budget, consume_sms_budget, due_for_alert}
use lan_fence.Store.Availability.{Absence, absences, evaluate_availability, mark_alerted}
use lan_fence.Store.Changelog.{IsRising}
use lan_fence.Store.Deletion.{delete_device, reset_all}
use lan_fence.Store.Dhcp.{record_dhcp_server_finding, record_dhcp_server_observation}
use lan_fence.Store.Evidence.{
  record_address_evidence, record_name_evidence, refresh_preferred_fields,
}
use lan_fence.Store.Lifecycle.{Reach, Step, here, next}
use lan_fence.Store.Observe.{Sighting, event_step, transition, write_device, write_evidence}
use lan_fence.Store.Observe.Rows.{after_observe}
use lan_fence.Store.Offline.{Sweep, is_expired, is_missed, mark_offline, mark_row, mark_rows}
use lan_fence.Store.Presence.{set_availability_alerted, set_offline_after, set_presence_policy}
use lan_fence.Store.Review.{clear_review, set_investigating, set_snoozed}
use lan_fence.Store.State.{EventRow, Row, Store, online_rows, record_event}

pub record IsNumbered (s : Store) : Type 0 where
  pub is_rising : IsRising s.events
  pub below : All (λ (r : EventRow). r.id ≤ s.event_seq) s.events

All-filtered {ℓ κ} :
    {A : Type ℓ} (P : A → Type κ) (p : A → Bool) (xs : List A) → All P xs → All P (filter p xs)
All-filtered P p [] h = tt
All-filtered P p (x ∷ xs) h = ground (arith, All-filtered P p xs h.1)

filter-IsRising : (p : EventRow → Bool) (rs : List EventRow) → IsRising rs → IsRising (filter p rs)
filter-IsRising p [] h = tt
filter-IsRising p (r ∷ rs) h =
    ground (arith, All-filtered (λ (x : EventRow). r.id < x.id) p rs h.0, filter-IsRising p rs h.1)

append-IsRising :
    (rs : List EventRow) (r : EventRow) (n : ℕ)
    → IsRising rs
    → All (λ (x : EventRow). x.id ≤ n) rs
    → n < r.id
    → IsRising (rs ++ r ∷ [])
append-IsRising [] r n h k l = (tt, tt)
append-IsRising (x ∷ rs) r n h k l = (
  All-append (λ (y : EventRow). x.id < y.id) rs (r ∷ []) h.0 (omega (arith, k.0), tt),
  append-IsRising rs r n h.1 k.1 l,
)

IsNumbered-untouched :
    (s t : Store) → t.events ≡ s.events → t.event_seq ≡ s.event_seq → IsNumbered s → IsNumbered t
IsNumbered-untouched s t e n h = record { is_rising = rw e h.is_rising; below = rw (e, n) h.below }

record_event-IsNumbered :
    (e : DeviceEvent) (s : Store) → IsNumbered s → IsNumbered (record_event e s)
unfolding record_event
record_event-IsNumbered e s h = record {
  is_rising = append-IsRising s.events _ s.event_seq h.is_rising h.below (omega arith);
  below =
      All-append (λ (r : EventRow). r.id ≤ s.event_seq + 1) s.events _
        (All-map (λ (r : EventRow). r.id ≤ s.event_seq) (λ (r : EventRow). r.id ≤ s.event_seq + 1)
          s.events (λ r k. omega (arith, k)) h.below)
        (omega arith, tt);
}

event_step-IsNumbered :
    (a : Sighting) (e : Option EventType) (s : Store) → IsNumbered s → IsNumbered (event_step a e s)
event_step-IsNumbered a none s h = h
event_step-IsNumbered a (some e) s h = record_event-IsNumbered _ s h

mark_row-IsNumbered :
    (sw : Sweep) (mac : String) (row : Row) (s : Store)
    → IsNumbered s
    → IsNumbered (mark_row sw mac row s).0
unfolding mark_row
mark_row-IsNumbered sw mac row s h =
    if-elim (λ (r : Store × List DeviceEvent). IsNumbered r.0) (is_missed sw mac row) _ _
      (λ e.
        if-elim (λ (r : Store × List DeviceEvent). IsNumbered r.0) (is_expired sw row) _ _
          (λ f. record_event-IsNumbered _ _ (IsNumbered-untouched s _ refl refl h))
          (λ f. IsNumbered-untouched s _ refl refl h))
      (λ e. h)

mark_rows-IsNumbered :
    (sw : Sweep) (rows : Table Row) (s : Store) → IsNumbered s → IsNumbered (mark_rows sw rows s).0
unfolding mark_rows
mark_rows-IsNumbered sw [] s h = h
mark_rows-IsNumbered sw ((mac, row) ∷ rows) s h =
    mark_rows-IsNumbered sw rows (mark_row sw mac row s).0 (mark_row-IsNumbered sw mac row s h)

mark_alerted-events :
    (t : ℕ) (due : List Absence) (s : Store) → IsNumbered s → IsNumbered (mark_alerted t due s)
unfolding mark_alerted set_availability_alerted
mark_alerted-events t [] s h = h
mark_alerted-events t (a ∷ due) s h =
    let s' = set_availability_alerted a.mac true t s in
    mark_alerted-events t due s' (IsNumbered-untouched s s' refl refl h)

write_evidence-IsNumbered :
    (a : Sighting) (s : Store) → IsNumbered s → IsNumbered (write_evidence a s)
unfolding write_evidence refresh_preferred_fields record_address_evidence record_name_evidence
write_evidence-IsNumbered a s h =
    IsNumbered-untouched s (write_evidence a s) (ground arith) (ground arith) h

write_device-IsNumbered : (a : Sighting) (s : Store) → IsNumbered s → IsNumbered (write_device a s)
unfolding write_device
write_device-IsNumbered a s h =
    IsNumbered-untouched s (write_device a s) (ground arith) (ground arith) h

after_observe-IsNumbered :
    (a : Sighting) (s : Store) → IsNumbered s → IsNumbered (after_observe a s)
unfolding after_observe
after_observe-IsNumbered a s h =
    event_step-IsNumbered a (transition (lookup a.mac s.devices))
      (write_evidence a (write_device a s))
      (write_evidence-IsNumbered a (write_device a s) (write_device-IsNumbered a s h))

Step-IsNumbered : {s t : Store} → Step s t → IsNumbered s → IsNumbered t
unfolding mark_offline evaluate_availability set_snoozed set_investigating clear_review
    set_presence_policy set_offline_after set_availability_alerted due_for_alert
    record_dhcp_server_observation record_dhcp_server_finding consume_global_alert_budget
    consume_sms_budget refresh_preferred_fields record_address_evidence delete_device reset_all
Step-IsNumbered (Step.sighting a {s = s}) h = after_observe-IsNumbered a s h
Step-IsNumbered (Step.sweep sw {s = s}) h = mark_rows-IsNumbered sw (online_rows s.devices) s h
Step-IsNumbered (Step.availability_check t d c {s = s}) h =
    mark_alerted-events t (absences t d c s.presence s.devices) s h
Step-IsNumbered (Step.deletion m {s = s}) h = record {
  is_rising = filter-IsRising _ s.events h.is_rising;
  below = All-filtered (λ (r : EventRow). r.id ≤ s.event_seq) _ s.events h.below;
}
Step-IsNumbered (Step.reset {s = s}) h = record { is_rising = tt; below = tt }
Step-IsNumbered {s} {t} _ h = IsNumbered-untouched s t (ground arith) (ground arith) h

-- In every state that the operations reach from a new database, the events stand in rising order of
-- their identifiers, and none has an identifier beyond the counter.
pub Reach-IsNumbered : {s t : Store} → IsNumbered s → Reach s t → IsNumbered t
Reach-IsNumbered h here = h
Reach-IsNumbered h (next r st) = Step-IsNumbered st (Reach-IsNumbered h r)

-- ===== src/Store/Lifecycle/Capped.antt =====
-- Whatever operations are made, the evidence kept for one MAC never passes the cap.
use lan_fence.Base.{
  Bool-cases, List, Option, String, Table, [], arith, inl, inr, lookup, lookup-erase, none,
  or_empty, refl, some, true, truthy, ℕ, ◌&&◌, ◌∷◌, ◌≡◌,
}
use lan_fence.Models.Device.{EventType, Ip, NameSource, observed}
use lan_fence.Store.Alerts.{consume_global_alert_budget, consume_sms_budget, due_for_alert}
use lan_fence.Store.Availability.{Absence, absences, evaluate_availability, mark_alerted}
use lan_fence.Store.Deletion.{delete_device, reset_all}
use lan_fence.Store.Dhcp.{record_dhcp_server_finding, record_dhcp_server_observation}
use lan_fence.Store.Evidence.{refresh_preferred_fields}
use lan_fence.Store.Evidence.Bounds.{
  IsCapped, record_address_evidence-IsCapped, record_name_evidence-IsCapped,
}
use lan_fence.Store.Lifecycle.{Reach, Step, here, next}
use lan_fence.Store.Observe.{
  Sighting, address_step, event_step, ip_text, is_directly_observed, name_step, transition,
  write_device, write_evidence,
}
use lan_fence.Store.Observe.Rows.{after_observe}
use lan_fence.Store.Offline.{Sweep, mark_offline, mark_row, mark_rows}
use lan_fence.Store.Presence.{set_availability_alerted, set_offline_after, set_presence_policy}
use lan_fence.Store.Review.{clear_review, set_investigating, set_snoozed}
use lan_fence.Store.State.{Row, Store, online_rows, record_event}

IsCapped-untouched :
    (s t : Store)
    → t.addresses ≡ s.addresses
    → t.names ≡ s.names
    → t.max_evidence_rows ≡ s.max_evidence_rows
    → IsCapped s
    → IsCapped t
IsCapped-untouched s t a n c h = record {
  addresses = λ m. ground (arith, h.addresses m);
  names = λ m. ground (arith, h.names m);
}

event_step-IsCapped :
    (a : Sighting) (e : Option EventType) (s : Store) → IsCapped s → IsCapped (event_step a e s)
unfolding record_event
event_step-IsCapped a none s h = h
event_step-IsCapped a (some e) s h = IsCapped-untouched s (event_step a (some e) s) refl refl refl h

address_step-IsCapped :
    (a : Sighting) (ip : Option Ip) (s : Store) → IsCapped s → IsCapped (address_step a ip s)
address_step-IsCapped a none s h = h
address_step-IsCapped a (some ip) s h =
    elim (Bool-cases (truthy (some ip.text) && is_directly_observed a.source)) [
      | inl e ↦ rw e (
          record_address_evidence-IsCapped a.mac ip (or_empty a.interface) a.source observed
            a.seen_at s h)
      | inr e ↦ rw e h
    ]

name_step-IsCapped :
    (a : Sighting) (name : Option String) (source : Option NameSource) (s : Store)
    → IsCapped s
    → IsCapped (name_step a name source s)
name_step-IsCapped a (some name) (some source) s h = elim (Bool-cases (truthy (some name))) [
  | inl e ↦ rw e (
      record_name_evidence-IsCapped a.mac name source (or_empty (ip_text a.ip))
        (or_empty a.interface) a.seen_at s h)
  | inr e ↦ rw e h
]
name_step-IsCapped a _ _ s h = h

after_observe-IsCapped : (a : Sighting) (s : Store) → IsCapped s → IsCapped (after_observe a s)
unfolding after_observe write_evidence refresh_preferred_fields write_device
after_observe-IsCapped a s h =
    let w = write_device a s in
    let hw : IsCapped w = IsCapped-untouched s w refl refl refl h in
    let e : Store = name_step a a.hostname a.hostname_source (address_step a a.ip w) in
    let he : IsCapped e =
      name_step-IsCapped a a.hostname a.hostname_source (address_step a a.ip w)
        (address_step-IsCapped a a.ip w hw) in
    event_step-IsCapped a (transition (lookup a.mac s.devices)) (write_evidence a w)
      (IsCapped-untouched e (write_evidence a w) refl refl refl he)

mark_row-IsCapped :
    (sw : Sweep) (mac : String) (row : Row) (s : Store)
    → IsCapped s
    → IsCapped (mark_row sw mac row s).0
unfolding mark_row record_event
mark_row-IsCapped sw mac row s h =
    IsCapped-untouched s (mark_row sw mac row s).0 (ground arith) (ground arith) (ground arith) h

mark_rows-IsCapped :
    (sw : Sweep) (rows : Table Row) (s : Store) → IsCapped s → IsCapped (mark_rows sw rows s).0
unfolding mark_rows
mark_rows-IsCapped sw [] s h = h
mark_rows-IsCapped sw ((mac, row) ∷ rows) s h =
    mark_rows-IsCapped sw rows (mark_row sw mac row s).0 (mark_row-IsCapped sw mac row s h)

mark_alerted-IsCapped :
    (t : ℕ) (due : List Absence) (s : Store) → IsCapped s → IsCapped (mark_alerted t due s)
unfolding mark_alerted set_availability_alerted
mark_alerted-IsCapped t [] s h = h
mark_alerted-IsCapped t (a ∷ due) s h =
    let s' = set_availability_alerted a.mac true t s in
    mark_alerted-IsCapped t due s' (IsCapped-untouched s s' refl refl refl h)

delete_device-IsCapped : (m : String) (s : Store) → IsCapped s → IsCapped (delete_device m s).1
unfolding delete_device
delete_device-IsCapped m s h = record {
  addresses = λ k. ground (arith, lookup-erase m k s.addresses, h.addresses k);
  names = λ k. ground (arith, lookup-erase m k s.names, h.names k);
}

reset_all-IsCapped : (s : Store) → IsCapped (reset_all s)
unfolding reset_all lookup
reset_all-IsCapped s = record { addresses = λ m. omega arith; names = λ m. omega arith }

Step-IsCapped : {s t : Store} → Step s t → IsCapped s → IsCapped t
unfolding mark_offline evaluate_availability set_snoozed set_investigating clear_review
    set_presence_policy set_offline_after set_availability_alerted due_for_alert
    record_dhcp_server_observation record_dhcp_server_finding consume_global_alert_budget
    consume_sms_budget refresh_preferred_fields
Step-IsCapped (Step.sighting a {s = s}) h = after_observe-IsCapped a s h
Step-IsCapped (Step.sweep sw {s = s}) h = mark_rows-IsCapped sw (online_rows s.devices) s h
Step-IsCapped (Step.availability_check t d c {s = s}) h =
    mark_alerted-IsCapped t (absences t d c s.presence s.devices) s h
Step-IsCapped (Step.address m ip i source kind t {s = s}) h =
    record_address_evidence-IsCapped m ip i source kind t s h
Step-IsCapped (Step.deletion m {s = s}) h = delete_device-IsCapped m s h
Step-IsCapped (Step.reset {s = s}) h = reset_all-IsCapped s
Step-IsCapped {s} {t} _ h = IsCapped-untouched s t (ground arith) (ground arith) (ground arith) h

-- In every state that the operations reach from one within the cap, no device has more rows of
-- address evidence, or of name evidence, than the cap, however many sightings report it.
pub Reach-IsCapped : {s t : Store} → IsCapped s → Reach s t → IsCapped t
Reach-IsCapped h here = h
Reach-IsCapped h (next r st) = Step-IsCapped st (Reach-IsCapped h r)

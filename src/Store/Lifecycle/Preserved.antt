-- ===== src/Store/Lifecycle/Preserved.antt =====
-- Every state that the operations of the database reach from a consistent one is consistent.
use mathlib.Core.Option
use mathlib.Core.Path.{subst}
use lan_fence.Base.{
  IsKeyed, List, Option, String, [], ap, arith, erase-IsKeyed, lookup, lookup-erase, lookup-update,
  none, refl, some, sym, true, update-IsKeyed, ℕ, ◌∙◌, ◌∷◌, ◌≡◌,
}
use lan_fence.Models.Device.{Ip}
use lan_fence.Store.Alerts.{consume_global_alert_budget, consume_sms_budget, due_for_alert}
use lan_fence.Store.Availability.{Absence, absences, evaluate_availability, mark_alerted}
use lan_fence.Store.Deletion.{delete_device, reset_all}
use lan_fence.Store.Dhcp.{record_dhcp_server_finding, record_dhcp_server_observation}
use lan_fence.Store.Evidence.{
  prefer, preferred_address, preferred_name, record_address_evidence, refresh_preferred_fields,
}
use lan_fence.Store.Lifecycle.{
  IsConsistent, Reach, Step, accepts, final, here, next, row_status, status_after, timeline,
}
use lan_fence.Store.Lifecycle.Sightings.{after_observe-IsConsistent}
use lan_fence.Store.Lifecycle.Sweeps.{mark_offline-IsConsistent}
use lan_fence.Store.Lifecycle.Timeline.{timeline-filter}
use lan_fence.Store.Presence.{set_availability_alerted, set_offline_after, set_presence_policy}
use lan_fence.Store.Review.{clear_review, set_investigating, set_snoozed}
use lan_fence.Store.State.{Row, Store}

-- an operation that leaves the devices and the events alone
IsConsistent-untouched :
    (s t : Store) → t.devices ≡ s.devices → t.events ≡ s.events → IsConsistent s → IsConsistent t
IsConsistent-untouched s t d e h = record {
  keyed = subst IsKeyed (sym d) h.keyed;
  is_lawful = λ m. ap (λ rs. accepts none (timeline m rs)) e ∙ h.is_lawful m;
  status_agrees = λ m.
      ap (λ t. row_status (lookup m t)) d
      ∙ h.status_agrees m
      ∙ ap (λ rs. status_after (final none (timeline m rs))) (sym e);
}

kept-mark_alerted :
    (t : ℕ) (due : List Absence) (s : Store)
    → ((mark_alerted t due s).devices ≡ s.devices) × ((mark_alerted t due s).events ≡ s.events)
unfolding mark_alerted set_availability_alerted
kept-mark_alerted t [] s = (refl, refl)
kept-mark_alerted t (a ∷ due) s = kept-mark_alerted t due (set_availability_alerted a.mac true t s)

status-prefer :
    (ip : Option Ip) (name : Option String) (o : Option Row)
    → row_status (Option.map (prefer ip name) o) ≡ row_status o
status-prefer ip name none = refl
status-prefer ip name (some r) = refl

refresh-IsConsistent :
    (m : String) (s : Store) → IsConsistent s → IsConsistent (refresh_preferred_fields m s)
unfolding refresh_preferred_fields
refresh-IsConsistent m s h =
    let f : Row → Row = prefer (preferred_address m s) (preferred_name m s) in
    record {
      keyed = update-IsKeyed m f s.devices h.keyed;
      is_lawful = h.is_lawful;
      status_agrees = λ k. ground (
        arith,
        lookup-update m k f s.devices,
        status-prefer (preferred_address m s) (preferred_name m s) (lookup k s.devices),
        h.status_agrees k,
      );
    }

delete_device-IsConsistent :
    (m : String) (s : Store) → IsConsistent s → IsConsistent (delete_device m s).1
unfolding delete_device
delete_device-IsConsistent m s h = record {
  keyed = erase-IsKeyed m s.devices h.keyed;
  is_lawful = λ k. ground (arith, timeline-filter m k s.events, h.is_lawful k);
  status_agrees = λ k.
      ground (arith, timeline-filter m k s.events, lookup-erase m k s.devices, h.status_agrees k);
}

reset_all-IsConsistent : (s : Store) → IsConsistent (reset_all s)
unfolding reset_all lookup
reset_all-IsConsistent s = record { keyed = tt; is_lawful = λ m. refl; status_agrees = λ m. refl }

-- Each operation of the database keeps its lifecycle consistent.
pub Step-IsConsistent : {s t : Store} → Step s t → IsConsistent s → IsConsistent t
unfolding evaluate_availability set_snoozed set_investigating clear_review set_presence_policy
    set_offline_after set_availability_alerted due_for_alert consume_global_alert_budget
    record_dhcp_server_observation record_dhcp_server_finding consume_sms_budget
    record_address_evidence
Step-IsConsistent (Step.sighting a {s = s}) h = after_observe-IsConsistent a s h
Step-IsConsistent (Step.sweep sw {s = s}) h = mark_offline-IsConsistent sw s h
Step-IsConsistent (Step.availability_check t d c {s = s}) h =
    let kept = kept-mark_alerted t (absences t d c s.presence s.devices) s in
    IsConsistent-untouched s (evaluate_availability t d c s).1 kept.0 kept.1 h
Step-IsConsistent (Step.refresh m {s = s}) h = refresh-IsConsistent m s h
Step-IsConsistent (Step.deletion m {s = s}) h = delete_device-IsConsistent m s h
Step-IsConsistent (Step.reset {s = s}) h = reset_all-IsConsistent s
Step-IsConsistent {s} {t} _ h = IsConsistent-untouched s t (ground arith) (ground arith) h

-- In every state that the operations reach from a consistent one, in any order, each device has
-- one row, its events are in a legal order (discovered, then disconnected and reappeared in turn)
-- and its status is the one that its last event leads to.
pub Reach-IsConsistent : {s t : Store} → IsConsistent s → Reach s t → IsConsistent t
Reach-IsConsistent h here = h
Reach-IsConsistent h (next r st) = Step-IsConsistent st (Reach-IsConsistent h r)

-- ===== src/Witnesses/Store.antt =====
-- Runs of the database.
use mathlib.Core.Option
use lan_fence.Base.{All, [], arith, false, lookup, map, refl, some, true, ◌∷◌, ◌≡◌}
use lan_fence.Models.Severity.{Severity}
use lan_fence.Store.Alerts.{due_for_alert}
use lan_fence.Store.Alerts.Cooldown.{due_for_alert-again}
use lan_fence.Store.Availability.{Absence, evaluate_availability}
use lan_fence.Store.Availability.Episodes.{
  IsDue, evaluate_availability-IsDue, evaluate_availability-once, reports,
}
use lan_fence.Store.Evidence.{preferred_address}
use lan_fence.Store.Evidence.Bounds.{IsCapped}
use lan_fence.Store.Evidence.Preferred.{Among, NotWorse, preferred_address-best}
use lan_fence.Store.Lifecycle.{IsConsistent, Reach, here, next}
use lan_fence.Store.Lifecycle.Capped.{Reach-IsCapped}
use lan_fence.Store.Lifecycle.Preserved.{Reach-IsConsistent}
use lan_fence.Store.Observe.{observe, transition}
use lan_fence.Store.Observe.Rows.{after_observe, after_observe-IsKeyed, observe-total, observed_row}
use lan_fence.Store.Offline.{devices_due_for_offline, mark_offline}
use lan_fence.Store.Offline.Agree.{device_mac, event_mac, mark_offline-devices_due}
use lan_fence.Store.Offline.Rows.{lookup-mark_offline, swept}
use lan_fence.Store.State.{AddressRow, row_to_device}
use lan_fence.Witnesses.Data.{
  device_gone, evidence_a, evidence_reported, mac_a, new_database, one_device, quiet_sweep,
  sighting_a, two_addresses, whole_network,
}
use lan_fence.Store.Lifecycle

-- one device is discovered, then leaves
abbrev two_steps : Reach new_database (mark_offline quiet_sweep one_device).0
two_steps = next (next here (Lifecycle.sighting (sighting_a 5))) (Lifecycle.sweep quiet_sweep)

Reach-IsConsistent_example : IsConsistent (mark_offline quiet_sweep one_device).0
unfolding lookup
Reach-IsConsistent_example =
    Reach-IsConsistent {s = new_database} {t = (mark_offline quiet_sweep one_device).0}
      (record { keyed = tt; is_lawful = λ m. refl; status_agrees = λ m. refl }) two_steps

Reach-IsCapped_example : IsCapped (mark_offline quiet_sweep one_device).0
unfolding lookup
Reach-IsCapped_example =
    Reach-IsCapped {s = new_database} {t = (mark_offline quiet_sweep one_device).0}
      (record { addresses = λ m. omega arith; names = λ m. omega arith }) two_steps

lookup-mark_offline_example :
    lookup mac_a (mark_offline quiet_sweep one_device).0.devices
    ≡ Option.map (swept quiet_sweep mac_a) (lookup mac_a one_device.devices)
lookup-mark_offline_example =
    lookup-mark_offline quiet_sweep mac_a one_device
      (after_observe-IsKeyed (sighting_a 5) new_database tt)

mark_offline-devices_due_example :
    map event_mac (mark_offline quiet_sweep one_device).1
    ≡ map device_mac (devices_due_for_offline quiet_sweep one_device)
mark_offline-devices_due_example = mark_offline-devices_due quiet_sweep one_device

evaluate_availability-IsDue_example :
    All
      (IsDue 2000 60 whole_network device_gone)
      (evaluate_availability 2000 60 whole_network device_gone).0
unfolding lookup
evaluate_availability-IsDue_example =
    evaluate_availability-IsDue 2000 60 whole_network device_gone (refl, tt)

evaluate_availability-once_example :
    let (due, s') = evaluate_availability 2000 60 whole_network device_gone in
    All
      (λ (a : Absence). reports a.mac (evaluate_availability 3000 60 whole_network s').0 ≡ false)
      due
evaluate_availability-once_example =
    evaluate_availability-once 2000 60 3000 60 whole_network whole_network device_gone

due_for_alert-again_example :
    (due_for_alert "k" Severity.high 20 60
      (due_for_alert "k" Severity.medium 10 60 new_database).1).0
    ≡ true
unfolding due_for_alert lookup
due_for_alert-again_example =
    due_for_alert-again "k" Severity.medium Severity.high 10 20 60 new_database (omega arith) refl

preferred_address-best_example :
    (best : AddressRow) × (preferred_address mac_a two_addresses ≡ some best.ip)
    × Among best (evidence_reported ∷ evidence_a ∷ [])
    × All (NotWorse best) (evidence_reported ∷ evidence_a ∷ [])
unfolding lookup
preferred_address-best_example =
    preferred_address-best mac_a two_addresses evidence_reported (evidence_a ∷ []) refl

observe-total_example :
    observe (sighting_a 9) one_device
    ≡ some (
      row_to_device mac_a (observed_row (sighting_a 9) one_device),
      transition (lookup mac_a one_device.devices),
      after_observe (sighting_a 9) one_device,
    )
observe-total_example = observe-total (sighting_a 9) one_device

-- ===== src/Witnesses/Engine.antt =====
-- Runs of the engine: sightings, findings and alerts.
use lan_fence.Base.{
  All, List, Option, String, arith, false, if◌then◌else◌, length, lookup, none, not, refl, some,
  true, ◌&&◌, ◌+◌, ◌≡◌, ◌≤◌,
}
use lan_fence.Engine.Absences.{absence_finding}
use lan_fence.Engine.Absences.Lanes.{delete_device-absence}
use lan_fence.Engine.Coalesce.{ArpSighting, coalesce_sightings}
use lan_fence.Engine.Coalesce.Lossless.{AllDistinct, coalesce_sightings-lossless, is_covered}
use lan_fence.Engine.Dispatch.{alert_cooldown_key, filter_rate_limited}
use lan_fence.Engine.Dispatch.Volume.{filter_rate_limited-bound}
use lan_fence.Engine.Sightings.{is_reappeared, process_sighting}
use lan_fence.Engine.Sightings.Recovery.{availability_count, process_sighting-recovery}
use lan_fence.Models.Device.{Device, EventType, new_device}
use lan_fence.Models.Finding.{Finding}
use lan_fence.Models.Severity.{medium}
use lan_fence.Store.Alerts.{due_for_alert}
use lan_fence.Store.Availability.Episodes.{alerted}
use lan_fence.Store.Deletion.{delete_device}
use lan_fence.Store.Observe.{observe, transition}
use lan_fence.Store.State.{Store}
use lan_fence.Text.{◌+++◌}
use lan_fence.Witnesses.Data.{alerted_gone, device_gone, mac_a, new_database, sighting_a}
use lan_fence.Witnesses.Inputs.{absent_a, batch, one_alert, quiet_env, sighted_a, two_findings}
use lan_fence.Engine.Findings.Trust

process_sighting-recovery_example :
    (device : Device) × (e : Option EventType) × (findings : List Finding) × (s' : Store)
    × (process_sighting quiet_env sighted_a alerted_gone ≡ some (device, e, findings, s'))
    × (e ≡ transition (lookup mac_a alerted_gone.devices))
    × (availability_count findings
        ≡ (if is_reappeared e && alerted mac_a alerted_gone then 1 else 0))
    × (alerted mac_a s' ≡ (alerted mac_a alerted_gone && not (is_reappeared e)))
process_sighting-recovery_example = process_sighting-recovery quiet_env sighted_a alerted_gone

filter_rate_limited-bound_example :
    0 + length (filter_rate_limited one_alert 100 two_findings new_database).0 ≤ 1
filter_rate_limited-bound_example =
    filter_rate_limited-bound one_alert 100 two_findings new_database (omega arith) (omega arith)
      (omega arith)

coalesce_sightings-lossless_example :
    All (λ z. is_covered z (coalesce_sightings batch) ≡ true) batch
    × AllDistinct (coalesce_sightings batch)
    × All (λ (x : ArpSighting). x.mac ≡ mac_a) (coalesce_sightings batch)
coalesce_sightings-lossless_example =
    coalesce_sightings-lossless (λ x. x.mac ≡ mac_a) batch (refl, (refl, (refl, tt)))

abbrev absence_key : String
absence_key = mac_a +++ "#availability#medium"

-- an alert went out at time 100, with a cooldown of 50; the device is deleted, and seen again at 120
delete_device-absence_example :
    (d : Device) × (found : Store) × (observe
        (sighting_a 120)
        (delete_device mac_a (due_for_alert absence_key medium 100 50 device_gone).1).1
      ≡ some (d, some new_device, found))
    × ((due_for_alert absence_key medium 140 50 found).0 ≡ false)
unfolding absence_finding alert_cooldown_key due_for_alert lookup
delete_device-absence_example =
    delete_device-absence none absent_a absent_a (sighting_a 120) 100 140 50 device_gone
      new_database new_database refl refl (omega arith) (omega arith) refl

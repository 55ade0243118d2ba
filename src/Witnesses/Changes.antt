-- ===== src/Witnesses/Changes.antt =====
-- Changes that are ingested from the database, and the text of a port.
use lan_fence.Allowlist.{match_entry}
use lan_fence.Base.{[], any, arith, lookup, none, refl, true, ◌+◌, ◌∷◌, ◌≡◌}
use lan_fence.Baseline.Ingest.{
  Detection, Watching, ingest_lifecycle, lifecycle_change, record_detected,
}
use lan_fence.Baseline.Ingest.Once.{IsIngested, ingest_lifecycle-IsIngested}
use lan_fence.Baseline.Recent.{recent_by_mac, recent_changes}
use lan_fence.Baseline.Recent.Tally.{is_many_changes, record_detected-many_changes, weight}
use lan_fence.Changes.{significance_at_least}
use lan_fence.Models.Change.{ChangeEvent, needs_attention}
use lan_fence.Models.Device.{EventType}
use lan_fence.Risk.{assess}
use lan_fence.Store.Changelog.{
  Changelog, get_cursor, last_disconnection_before, record_change_event,
}
use lan_fence.Store.Lifecycle.{Reach, here, next}
use lan_fence.Store.Presence.{get_presence}
use lan_fence.Witnesses.Data.{mac_a, new_database, one_device, sighting_a}
use lan_fence.Witnesses.Inputs.{exposed}
use lan_fence.Store.Lifecycle

abbrev plain_watch : Watching
plain_watch = record { allowlist = []; long_absence = 1209600000000; round_days = λ t. 0 }

-- change detection has run on an empty database, and recorded nothing
abbrev started_log : Changelog
started_log = record {
  rows = [];
  seq = 7;
  cursors = ("events", 0) ∷ [];
  max_change_events = 100;
  retention = 86400000000;
}

abbrev started_run : Detection
started_run = record { recorded = []; log = started_log }

abbrev one_sighting : Reach new_database one_device
one_sighting = next here (Lifecycle.sighting (sighting_a 5))

ingest_lifecycle-IsIngested_example :
    IsIngested plain_watch one_device 0 started_run
      (ingest_lifecycle plain_watch one_device started_run)
unfolding get_cursor lookup
ingest_lifecycle-IsIngested_example =
    ingest_lifecycle-IsIngested plain_watch one_device 3 0 started_run one_sighting refl

-- an unknown device that was just found
abbrev arrival : ChangeEvent
arrival = lifecycle_change plain_watch one_device (record {
  id = 1;
  event = record {
    mac = mac_a;
    event_type = EventType.new_device;
    timestamp = 5;
    ip = none;
    hostname = none;
  };
})

-- it counts
arrival_counts : weight 60 mac_a arrival ≡ 1
unfolding lifecycle_change needs_attention match_entry get_presence lookup last_disconnection_before
    significance_at_least
arrival_counts = refl

abbrev second_run : Detection
second_run = record_detected arrival started_run

record_detected-many_changes_example :
    let n = recent_changes 60 (recent_by_mac 60 mac_a (record_detected arrival second_run)) in
    (n ≡ 4 + recent_changes 60 (recent_by_mac 60 mac_a started_run))
    × (any is_many_changes (assess (record exposed { recent_changes = n }) 60).contributions ≡ true)
unfolding record_detected record_change_event lifecycle_change
record_detected-many_changes_example =
    record_detected-many_changes 60 mac_a arrival arrival started_run exposed
      (record { room = omega arith; kept = tt })
      (record { room = omega arith; kept = (omega arith, tt) }) arrival_counts arrival_counts

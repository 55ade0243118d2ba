-- ===== src/Store/Lifecycle.antt =====
-- lanfence/db.py: the steps of the database, and the lifecycle that its events tell.
pub mod Timeline
pub mod Sightings
pub mod Sweeps
pub mod Preserved
pub mod Capped
pub mod Numbered
use Prim.Native.Nat.{compare}
use mathlib.Core.Option
use lan_fence.Base.{
  Bool, IsKeyed, List, Option, String, [], false, if◌then◌else◌, lookup, none, some, str_eq, true,
  ℕ, ◌&&◌, ◌∷◌, ◌≡◌,
}
use lan_fence.Models.Device.{
  AssociationKind, EventType, Ip, PresencePolicyName, Source, Status, disconnected, new_device,
  offline, online, reappeared,
}
use lan_fence.Models.Severity.{Severity}
use lan_fence.Store.Alerts.{consume_global_alert_budget, consume_sms_budget, due_for_alert}
use lan_fence.Store.Availability.{evaluate_availability}
use lan_fence.Store.Availability.Episodes.{alerted}
use lan_fence.Store.Coverage.{Coverage}
use lan_fence.Store.Deletion.{delete_device, reset_all}
use lan_fence.Store.Dhcp.{DhcpReply, record_dhcp_server_finding, record_dhcp_server_observation}
use lan_fence.Store.Evidence.{record_address_evidence, refresh_preferred_fields}
use lan_fence.Store.Observe.{Sighting}
use lan_fence.Store.Observe.Rows.{after_observe}
use lan_fence.Store.Offline.{Sweep, mark_offline}
use lan_fence.Store.Presence.{set_availability_alerted, set_offline_after, set_presence_policy}
use lan_fence.Store.Review.{clear_review, set_investigating, set_snoozed}
use lan_fence.Store.State.{EventRow, Row, Store}

-- the event types of one device, oldest first
abbrev pub timeline : String → List EventRow → List EventType
timeline m [] = []
timeline m (r ∷ rs) =
    let rest = timeline m rs in if str_eq m r.event.mac then r.event.event_type ∷ rest else rest

-- A device is discovered first; it disconnects only while it is there, and reappears only after
-- it has disconnected.
abbrev pub is_legal : Option EventType → EventType → Bool
is_legal none new_device = true
is_legal (some disconnected) reappeared = true
is_legal (some new_device) disconnected = true
is_legal (some reappeared) disconnected = true
is_legal _ _ = false

abbrev pub accepts : Option EventType → List EventType → Bool
accepts last [] = true
accepts last (e ∷ es) = is_legal last e && accepts (some e) es

abbrev pub final : Option EventType → List EventType → Option EventType
final last [] = last
final last (e ∷ es) = final (some e) es

-- the status that a device has after its last event; a device with no event is not on record
abbrev pub status_after : Option EventType → Option Status
status_after none = none
status_after (some disconnected) = some offline
status_after (some _) = some online

abbrev pub row_status : Option Row → Option Status
row_status none = none
row_status (some r) = some r.status

-- One row for each MAC; the events of each device are in a legal order, and its status is the one
-- that they lead to.
pub record IsConsistent (s : Store) : Type 0 where
  pub keyed : IsKeyed s.devices
  pub is_lawful : (m : String) → accepts none (timeline m s.events) ≡ true
  pub status_agrees :
      (m : String)
      → row_status (lookup m s.devices) ≡ status_after (final none (timeline m s.events))

-- The operations of the database, one constructor for each that can change it.
pub data Step : Store → Store → Type 0 where
  sighting : (a : Sighting) {s : Store} → Step s (after_observe a s)
  sweep : (sw : Sweep) {s : Store} → Step s (mark_offline sw s).0
  availability_check :
      (as_of default : ℕ) (c : Coverage) {s : Store}
      → Step s (evaluate_availability as_of default c s).1
  snooze :
      (m : String) (until : ℕ) (notes : Option String) (now : ℕ) {s : Store}
      → Step s (set_snoozed m until notes now s)
  investigate :
      (m : String) (notes : Option String) (now : ℕ) {s : Store}
      → Step s (set_investigating m notes now s)
  unreview : (m : String) {s : Store} → Step s (clear_review m s)
  policy :
      (m : String) (p : PresencePolicyName) (now : ℕ) {s : Store}
      → Step s (set_presence_policy m p now s)
  delay : (m : String) (d : Option ℕ) (now : ℕ) {s : Store} → Step s (set_offline_after m d now s)
  episode :
      (m : String) (alerted : Bool) (now : ℕ) {s : Store}
      → Step s (set_availability_alerted m alerted now s)
  alert :
      (key : String) (v : Severity) (now cooldown : ℕ) {s : Store}
      → Step s (due_for_alert key v now cooldown s).1
  budget : (now m w : ℕ) {s : Store} → Step s (consume_global_alert_budget now m w s).1
  sms : (n : ℕ) (day : String) (m : ℕ) {s : Store} → Step s (consume_sms_budget n day m s).1
  address :
      (m : String) (ip : Ip) (interface : String) (source : Source) (kind : AssociationKind) (t : ℕ)
      {s : Store}
      → Step s (record_address_evidence m ip interface source kind t s)
  refresh : (m : String) {s : Store} → Step s (refresh_preferred_fields m s)
  dhcp_reply : (o : DhcpReply) {s : Store} → Step s (record_dhcp_server_observation o s)
  dhcp_report :
      (o : DhcpReply) (approved : Bool) {s : Store}
      → Step s (record_dhcp_server_finding o approved s)
  deletion : (m : String) {s : Store} → Step s (delete_device m s).1
  reset : {s : Store} → Step s (reset_all s)

pub data Reach (s : Store) : Store → Type 0 where
  here : Reach s s
  next : {t u : Store} → Reach s t → Step t u → Reach s u

-- a new database
abbrev pub empty_store : ℕ → Store
empty_store cap = record {
  devices = [];
  events = [];
  event_seq = 0;
  alert_log = [];
  alert_window = none;
  review = [];
  presence = [];
  addresses = [];
  names = [];
  metadata = [];
  sms_budget = [];
  max_evidence_rows = cap;
  dhcp_servers = [];
  dhcp_findings = [];
  dhcp_seq = 0;
  max_dhcp_findings = 5000;
}

-- ===== src/Engine/Absences/Lanes.antt =====
-- The alerts of an absence and of the recovery after it do not share a cooldown.
use text.Mathlib.TextLemmas.{append-nil, append_cancel_left}
use lan_fence.Allowlist.{AllowEntry}
use lan_fence.Base.{
  Bool, List, Option, String, ap, arith, eq_iff, false, if◌then◌else◌, lookup, lookup-erase, ltb,
  none, or_else, refl, some, str_eq, sym, true, ℕ, ◌+◌, ◌<◌, ◌∙◌, ◌≡◌, ◌≢◌,
}
use lan_fence.Engine.Absences.{absence_finding}
use lan_fence.Engine.Dispatch.{AlertConfig, alert_cooldown_key, cooldown_row, may_send}
use lan_fence.Engine.Sightings.{recovery_finding}
use lan_fence.Models.Device.{Device, EventType, Ip, NameSource}
use lan_fence.Models.Finding.{Finding}
use lan_fence.Models.Severity.{Severity, medium, rank}
use lan_fence.Store.Alerts.{consume_global_alert_budget, due_for_alert}
use lan_fence.Store.Alerts.Cooldown.{due_for_alert-again, due_for_alert-frame}
use lan_fence.Store.Availability.{Absence}
use lan_fence.Store.Deletion.{delete_device}
use lan_fence.Store.Evidence.{
  record_address_evidence, record_name_evidence, refresh_preferred_fields,
}
use lan_fence.Store.Observe.{
  Sighting, address_step, event_step, name_step, observe, transition, write_device, write_evidence,
}
use lan_fence.Store.Observe.Rows.{after_observe, observe-total, observed_row}
use lan_fence.Store.State.{Store, record_event, row_to_device}
use lan_fence.Text.{◌+++◌}

lanes_differ :
    (m : String) → (m +++ "#availability#" +++ "medium") ≢ (m +++ "#availability#" +++ "info")
lanes_differ m e = ground (
  arith,
  append_cancel_left m "#availability#medium" "#availability#info" e,
  eq_iff "#availability#medium" "#availability#info",
)

alert_log-budget :
    (now m w : ℕ) (s : Store) → (consume_global_alert_budget now m w s).1.alert_log ≡ s.alert_log
unfolding consume_global_alert_budget
alert_log-budget now m w s = ground arith

may_send-other :
    (cfg : AlertConfig) (now : ℕ) (f : Finding) (row : String) (s : Store)
    → cooldown_row f ≢ row
    → lookup row (may_send cfg now f s).1.alert_log ≡ lookup row s.alert_log
unfolding may_send
may_send-other cfg now f row s h =
    let cooldown = or_else f.cooldown cfg.rate_limit in
    let after = (due_for_alert (cooldown_row f) f.severity now cooldown s).1 in
    ground (
      arith,
      alert_log-budget now cfg.global_rate_limit_max cfg.global_rate_limit_window after,
      (due_for_alert-frame (cooldown_row f) row f.severity now cooldown s h).1,
    )

-- Sending the alert of an absence leaves the cooldown of the same device's recovery as it was, so
-- that an absence never holds back the recovery after it.
pub may_send-absence :
    (cfg : AlertConfig) (now : ℕ) (allowlist : Option (List AllowEntry)) (a : Absence) (d : Device)
    (s t : Store)
    → d.mac ≡ a.mac
    → lookup
        (cooldown_row (recovery_finding d))
        (may_send cfg now (absence_finding allowlist t a) s).1.alert_log
      ≡ lookup (cooldown_row (recovery_finding d)) s.alert_log
unfolding absence_finding alert_cooldown_key
may_send-absence cfg now allowlist a d s t h =
    may_send-other cfg now (absence_finding allowlist t a) (cooldown_row (recovery_finding d)) s
      (λ e. lanes_differ a.mac (e ∙ ap (λ m. m +++ "#availability#" +++ "info") h))

lane_ne_mac : (m : String) → m ≢ (m +++ "#availability#medium")
lane_ne_mac m e = ground (
  arith,
  append_cancel_left m "" "#availability#medium" (append-nil m ∙ e),
  eq_iff "" "#availability#medium",
)

str_eq-ne : (a b : String) → a ≢ b → str_eq a b ≡ false
str_eq-ne a b h = ground (arith, eq_iff a b, h)

-- Deleting a device leaves the cooldown of its absence alert behind.
alert_log-delete_device :
    (mac : String) (s : Store)
    → lookup (mac +++ "#availability#medium") (delete_device mac s).1.alert_log
      ≡ lookup (mac +++ "#availability#medium") s.alert_log
unfolding delete_device
alert_log-delete_device mac s =
    let lane = mac +++ "#availability#medium" in
    lookup-erase mac lane s.alert_log
    ∙ ap (λ (b : Bool). if b then none else lookup lane s.alert_log)
        (str_eq-ne lane mac (λ e. lane_ne_mac mac (sym e)))

alert_log-address_step :
    (g : Sighting) (ip : Option Ip) (s : Store) → (address_step g ip s).alert_log ≡ s.alert_log
unfolding record_address_evidence
alert_log-address_step g ip s = ground arith

alert_log-name_step :
    (g : Sighting) (name : Option String) (source : Option NameSource) (s : Store)
    → (name_step g name source s).alert_log ≡ s.alert_log
unfolding record_name_evidence
alert_log-name_step g name source s = ground arith

alert_log-refresh :
    (mac : String) (s : Store) → (refresh_preferred_fields mac s).alert_log ≡ s.alert_log
unfolding refresh_preferred_fields
alert_log-refresh mac s = refl

alert_log-event_step :
    (g : Sighting) (e : Option EventType) (s : Store) → (event_step g e s).alert_log ≡ s.alert_log
unfolding record_event
alert_log-event_step g none s = refl
alert_log-event_step g (some e) s = refl

-- a sighting leaves every cooldown as it was
alert_log-after_observe : (g : Sighting) (s : Store) → (after_observe g s).alert_log ≡ s.alert_log
unfolding after_observe write_evidence write_device
alert_log-after_observe g s =
    let found = write_device g s in
    alert_log-event_step g (transition (lookup g.mac s.devices)) (write_evidence g found)
    ∙ alert_log-refresh g.mac _
    ∙ alert_log-name_step g g.hostname g.hostname_source (address_step g g.ip found)
    ∙ alert_log-address_step g g.ip found

transition-delete_device :
    (mac : String) (s : Store)
    → transition (lookup mac (delete_device mac s).1.devices) ≡ some EventType.new_device
unfolding delete_device
transition-delete_device mac s = ground (arith, lookup-erase mac mac s.devices, eq_iff mac mac)

due_for_alert-same :
    (key : String) (v : Severity) (now cooldown : ℕ) (s t : Store)
    → lookup key s.alert_log ≡ lookup key t.alert_log
    → (due_for_alert key v now cooldown s).0 ≡ (due_for_alert key v now cooldown t).0
unfolding due_for_alert
due_for_alert-same key v now cooldown s t h = ground (arith, h)

held : (u v : ℕ) → u < v → (if ltb u v then ltb (rank medium) (rank medium) else true) ≡ false
held u v h = ground arith

-- The alert of an absence holds back the next one of the same device within its cooldown even if the
-- device is deleted in between: it is found again as a new device, and the alert of its next absence
-- is still not due.
pub delete_device-absence :
    (allowlist : Option (List AllowEntry)) (a b : Absence) (g : Sighting) (now later cooldown : ℕ)
    (s t u : Store)
    → b.mac ≡ a.mac
    → g.mac ≡ a.mac
    → 0 < cooldown
    → later < now + cooldown
    → let first = absence_finding allowlist t a in
      let second = absence_finding allowlist u b in
      let sent = due_for_alert (cooldown_row first) first.severity now cooldown s in
      sent.0 ≡ true
      → (d : Device) × (found : Store) × (observe g (delete_device a.mac sent.1).1
          ≡ some (d, some EventType.new_device, found))
        × ((due_for_alert (cooldown_row second) second.severity later cooldown found).0 ≡ false)
unfolding absence_finding alert_cooldown_key
delete_device-absence allowlist a b g now later cooldown s t u same found_mac some_time soon sent =
    let key = a.mac +++ "#availability#medium" in
    let after = (due_for_alert key medium now cooldown s).1 in
    let gone = (delete_device a.mac after).1 in
    let back = after_observe g gone in
    let log : lookup key back.alert_log ≡ lookup key after.alert_log =
      ap (lookup key) (alert_log-after_observe g gone) ∙ alert_log-delete_device a.mac after in
    let new : transition (lookup g.mac gone.devices) ≡ some EventType.new_device =
      ap (λ m. transition (lookup m gone.devices)) found_mac
      ∙ transition-delete_device a.mac after in
    (
      row_to_device g.mac (observed_row g gone),
      back,
      observe-total g gone
          ∙ ap (λ e. some (row_to_device g.mac (observed_row g gone), e, back)) new,
      ap (λ m. (due_for_alert (m +++ "#availability#medium") medium later cooldown back).0) same
          ∙ due_for_alert-same key medium later cooldown back after log
          ∙ due_for_alert-again key medium medium now later cooldown s some_time sent
          ∙ held later (now + cooldown) soon,
    )

-- ===== src/Store/Alerts/Cooldown.antt =====
-- `due_for_alert`: what a key may send within its cooldown.
use lan_fence.Base.{
  String, arith, eq_iff, if◌then◌else◌, lookup, lookup-upsert, ltb, true, ℕ, ◌+◌, ◌<◌, ◌≡◌, ◌≢◌,
}
use lan_fence.Models.Severity.{Severity, rank}
use lan_fence.Store.Alerts.{due_for_alert}
use lan_fence.Store.State.{Store}

-- After an alert went out for a key, a second one for it goes out exactly if the cooldown has
-- passed or its severity is higher than the first one's.
pub due_for_alert-again :
    (key : String) (first second : Severity) (t u cooldown : ℕ) (s : Store)
    → 0 < cooldown
    → (due_for_alert key first t cooldown s).0 ≡ true
    → (due_for_alert key second u cooldown (due_for_alert key first t cooldown s).1).0
      ≡ (if ltb u (t + cooldown) then ltb (rank first) (rank second) else true)
unfolding due_for_alert
due_for_alert-again key first second t u cooldown s pos sent = ground (
  arith,
  eq_iff key key,
  lookup-upsert key key (record { last_alerted_at = t; last_severity = first }) s.alert_log,
)

-- A refused alert leaves the database as it was, and an alert for one key changes the cooldown
-- of no other key.
pub due_for_alert-frame :
    (key other : String) (severity : Severity) (now cooldown : ℕ) (s : Store)
    → key ≢ other
    → let (sent, s') = due_for_alert key severity now cooldown s in
      (s' ≡ (if sent then s' else s)) × (lookup other s'.alert_log ≡ lookup other s.alert_log)
unfolding due_for_alert
due_for_alert-frame key other severity now cooldown s ne = ground (
  arith,
  eq_iff other key,
  lookup-upsert key other (record { last_alerted_at = now; last_severity = severity }) s.alert_log,
)

-- ===== src/Store/Alerts.antt =====
-- lanfence/db.py: when an external alert may go out: the cooldown of each key, the global window
-- and the daily SMS budget. Each call checks and records at once.
pub mod Cooldown
pub mod Budget
use lan_fence.Base.{
  ℕ, ◌+◌, String, Bool, true, false, ◌&&◌, ◌||◌, not, Option, none, some, ltb, leb, ◌==◌,
  if◌then◌else◌, lookup, upsert, or_else,
}
use lan_fence.Models.Severity.{Severity, rank}
use lan_fence.Store.State.{Store, AlertRow, Window}

-- the test that holds an alert back: within the cooldown, and no escalation
abbrev pub in_cooldown : AlertRow → Severity → ℕ → ℕ → Bool
in_cooldown row severity now cooldown =
    let escalated = ltb (rank row.last_severity) (rank severity) in
    ltb now (row.last_alerted_at + cooldown) && not escalated

abbrev pub held_back : Option AlertRow → Severity → ℕ → ℕ → Bool
held_back none severity now cooldown = false
held_back (some row) severity now cooldown = in_cooldown row severity now cooldown

-- `key` is the cooldown row's identity
unfoldable pub due_for_alert : String → Severity → ℕ → ℕ → Store → Bool × Store
due_for_alert key severity now cooldown s =
    if cooldown == 0
    then (true, s)
    else if held_back (lookup key s.alert_log) severity now cooldown
    then (false, s)
    else (
      true,
      record s {
        alert_log =
            upsert key (record { last_alerted_at = now; last_severity = severity }) s.alert_log;
      },
    )

-- no window yet, or one that has run out
abbrev pub is_over : Option Window → ℕ → ℕ → Bool
is_over none now window = true
is_over (some w) now window = leb (w.window_start + window) now

abbrev pub spent : Option Window → ℕ
spent none = 0
spent (some w) = w.count

abbrev pub one_more : Option Window → Option Window
one_more none = none
one_more (some w) = some (record w { count = w.count + 1 })

unfoldable pub consume_global_alert_budget : ℕ → ℕ → ℕ → Store → Bool × Store
consume_global_alert_budget now max_per_window window s =
    if max_per_window == 0 || window == 0
    then (true, s)
    else if is_over s.alert_window now window
    then (true, record s { alert_window = some (record { window_start = now; count = 1 }) })
    else if leb max_per_window (spent s.alert_window)
    then (false, s)
    else (true, record s { alert_window = one_more s.alert_window })

-- `day` is the UTC calendar day of the call, as the text of `strftime("%Y-%m-%d")`
unfoldable pub consume_sms_budget : ℕ → String → ℕ → Store → Bool × Store
consume_sms_budget segments day max_segments s =
    let used = or_else (lookup day s.sms_budget) 0 in
    if max_segments == 0
    then (true, s)
    else if ltb max_segments (used + segments)
    then (false, s)
    else (true, record s { sms_budget = upsert day (used + segments) s.sms_budget })

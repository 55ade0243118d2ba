-- ===== src/Engine/Dispatch.antt =====
-- lanfence/engine.py: which findings are worth an external alert right now.
pub mod Volume
pub mod Snooze
use lan_fence.Base.{
  Bool, List, Option, String, [], false, filter, if◌then◌else◌, none, none_or, not, or_else,
  or_empty, some, sort_desc, ℕ, ◌∷◌,
}
use lan_fence.Models.Finding.{Finding, availability, network_service}
use lan_fence.Models.Severity.{Severity, critical, high, info, medium, rank}
use lan_fence.Store.Alerts.{consume_global_alert_budget, due_for_alert}
use lan_fence.Store.Review.{is_snoozed}
use lan_fence.Store.State.{Store}
use lan_fence.Text.{◌+++◌}

-- the text of a severity
abbrev pub severity_text : Severity → String
severity_text info = "info"
severity_text medium = "medium"
severity_text high = "high"
severity_text critical = "critical"

-- an optional text inside an f-string
abbrev pub formatted : Option String → String
formatted none = "None"
formatted (some s) = s

abbrev or_mac : Option String → Option String → Option String
or_mac none mac = mac
or_mac (some key) mac = some key

-- `_alert_cooldown_key`; `none` for a finding with no identity at all
unfoldable pub alert_cooldown_key : Finding → Option String
alert_cooldown_key f = elim f.kind [
  | availability ↦ some (formatted f.mac +++ "#availability#" +++ severity_text f.severity)
  | network_service ↦
      some ("network_service#" +++ formatted f.subject_id +++ "#" +++ severity_text f.severity)
  | _ ↦ or_mac f.cooldown_key f.mac
]

-- the identity of the cooldown row: `key` if it is not `None`, else `finding.mac or ""`
abbrev pub cooldown_row : Finding → String
cooldown_row f = or_empty (or_mac (alert_cooldown_key f) f.mac)

-- the settings `alerts.rate_limit_seconds`, `global_rate_limit_max`, `global_rate_limit_window_seconds`
pub record AlertConfig : Type 0 where
  pub rate_limit : ℕ
  pub global_rate_limit_max : ℕ
  pub global_rate_limit_window : ℕ

-- the two tests of the loop
unfoldable pub may_send : AlertConfig → ℕ → Finding → Store → Bool × Store
may_send cfg now f s =
    let (due, s') =
      due_for_alert (cooldown_row f) f.severity now (or_else f.cooldown cfg.rate_limit) s in
    if due
    then consume_global_alert_budget now cfg.global_rate_limit_max cfg.global_rate_limit_window s'
    else (false, s')

unfoldable pub send_from : AlertConfig → ℕ → List Finding → Store → List Finding × Store
send_from cfg now [] s = ([], s)
send_from cfg now (f ∷ fs) s =
    let (sent, s') = may_send cfg now f s in
    let (rest, s'') = send_from cfg now fs s' in (if sent then f ∷ rest else rest, s'')

-- `filter_rate_limited`, highest severity first
unfoldable pub filter_rate_limited : AlertConfig → ℕ → List Finding → Store → List Finding × Store
unfolding send_from may_send
filter_rate_limited cfg now fs s =
    send_from cfg now (sort_desc (λ (f : Finding). rank f.severity) fs) s

-- `filter_snoozed`
unfoldable pub filter_snoozed : ℕ → List Finding → Store → List Finding
filter_snoozed now fs s = filter (λ (f : Finding). none_or f.mac (λ m. not (is_snoozed m now s))) fs

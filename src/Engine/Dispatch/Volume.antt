-- ===== src/Engine/Dispatch/Volume.antt =====
-- How many external alerts one batch of findings can send.
use lan_fence.Base.{
  Bool-cases, List, Option, String, [], arith, if◌then◌else◌, inl, inr, length, or_else, sort_desc,
  ℕ, ◌+◌, ◌<◌, ◌∷◌, ◌≡◌, ◌≤◌,
}
use lan_fence.Engine.Dispatch.{AlertConfig, cooldown_row, filter_rate_limited, may_send, send_from}
use lan_fence.Models.Finding.{Finding}
use lan_fence.Models.Severity.{Severity, rank}
use lan_fence.Store.Alerts.{consume_global_alert_budget, due_for_alert, is_over, spent}
use lan_fence.Store.Alerts.Budget.{one_if}
use lan_fence.Store.State.{Store, Window}

-- what the global window has counted, if it is still open at this time
abbrev pub used : ℕ → ℕ → Option Window → ℕ
used now window w = if is_over w now window then 0 else spent w

window-due_for_alert :
    (key : String) (v : Severity) (now cooldown : ℕ) (s : Store)
    → (due_for_alert key v now cooldown s).1.alert_window ≡ s.alert_window
unfolding due_for_alert
window-due_for_alert key v now cooldown s = ground arith

used-consume :
    (now m window : ℕ) (s : Store)
    → 0 < m
    → 0 < window
    → used now window s.alert_window ≤ m
    → let (sent, s') = consume_global_alert_budget now m window s in
      (used now window s'.alert_window ≡ used now window s.alert_window + one_if sent)
      × (used now window s'.alert_window ≤ m)
unfolding consume_global_alert_budget
used-consume now m window s pm pw inv = ground arith

used-may_send :
    (cfg : AlertConfig) (now : ℕ) (f : Finding) (s : Store)
    → 0 < cfg.global_rate_limit_max
    → 0 < cfg.global_rate_limit_window
    → used now cfg.global_rate_limit_window s.alert_window ≤ cfg.global_rate_limit_max
    → let (sent, s') = may_send cfg now f s in
      (used now cfg.global_rate_limit_window s'.alert_window
        ≡ used now cfg.global_rate_limit_window s.alert_window + one_if sent)
      × (used now cfg.global_rate_limit_window s'.alert_window ≤ cfg.global_rate_limit_max)
unfolding may_send
used-may_send cfg now f s pm pw inv =
    let w = cfg.global_rate_limit_window in
    let m = cfg.global_rate_limit_max in
    let delay = or_else f.cooldown cfg.rate_limit in
    let d = due_for_alert (cooldown_row f) f.severity now delay s in
    let same = window-due_for_alert (cooldown_row f) f.severity now delay s in
    elim (Bool-cases d.0) [
      | inl e ↦ rw e (ground (arith, same, used-consume now m w d.1 pm pw))
      | inr e ↦ rw e (ground (arith, same, inv))
    ]

length-send_from :
    (cfg : AlertConfig) (now : ℕ) (fs : List Finding) (s : Store)
    → 0 < cfg.global_rate_limit_max
    → 0 < cfg.global_rate_limit_window
    → used now cfg.global_rate_limit_window s.alert_window ≤ cfg.global_rate_limit_max
    → used now cfg.global_rate_limit_window s.alert_window + length (send_from cfg now fs s).0
      ≤ cfg.global_rate_limit_max
unfolding send_from
length-send_from cfg now [] s pm pw inv = omega arith
length-send_from cfg now (f ∷ fs) s pm pw inv =
    let step = used-may_send cfg now f s pm pw inv in
    let s' : Store = (may_send cfg now f s).1 in
    let ih = length-send_from cfg now fs s' pm pw step.1 in
    elim (Bool-cases (may_send cfg now f s).0) [
      | inl e ↦ rw e (ground (arith, step, ih))
      | inr e ↦ rw e (ground (arith, step, ih))
    ]

-- However many findings a batch has, and of however many devices, the alerts that it sends and
-- those already counted in the open window never pass the configured maximum.
pub filter_rate_limited-bound :
    (cfg : AlertConfig) (now : ℕ) (fs : List Finding) (s : Store)
    → 0 < cfg.global_rate_limit_max
    → 0 < cfg.global_rate_limit_window
    → used now cfg.global_rate_limit_window s.alert_window ≤ cfg.global_rate_limit_max
    → used now cfg.global_rate_limit_window s.alert_window
        + length (filter_rate_limited cfg now fs s).0
      ≤ cfg.global_rate_limit_max
unfolding filter_rate_limited
filter_rate_limited-bound cfg now fs s =
    length-send_from cfg now (sort_desc (λ (f : Finding). rank f.severity) fs) s

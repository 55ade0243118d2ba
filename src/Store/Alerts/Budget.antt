-- ===== src/Store/Alerts/Budget.antt =====
-- The two volume caps over a sequence of calls: the global window and the daily SMS budget.
use lan_fence.Base.{
  All, Bool, Bool-cases, List, String, [], arith, eq_iff, false, if◌then◌else◌, inl, inr, leb,
  lookup, lookup-upsert, ltb, or_else, some, true, ℕ, ◌+◌, ◌<◌, ◌∷◌, ◌≡◌, ◌≤◌,
}
use lan_fence.Store.Alerts.{consume_global_alert_budget, consume_sms_budget}
use lan_fence.Store.State.{Store, Window}

abbrev pub one_if : Bool → ℕ
one_if true = 1
one_if false = 0

-- how many of the calls at these times are granted, from a state of the database
unfoldable pub granted : ℕ → ℕ → List ℕ → Store → ℕ
granted max_per_window window [] s = 0
granted max_per_window window (now ∷ times) s =
    let (sent, s') = consume_global_alert_budget now max_per_window window s in
    one_if sent + granted max_per_window window times s'

-- what the window holds after a call inside it
abbrev counted : ℕ → Window → Window
counted m w = record {
  window_start = w.window_start;
  count = if leb m w.count then w.count else w.count + 1;
}

budget_step :
    (m window now : ℕ) (w : Window) (s : Store)
    → 0 < m
    → 0 < window
    → s.alert_window ≡ some w
    → now < w.window_start + window
    → ((consume_global_alert_budget now m window s).0 ≡ ltb w.count m)
      × ((consume_global_alert_budget now m window s).1.alert_window ≡ some (counted m w))
unfolding consume_global_alert_budget
budget_step m window now w s pos pw e before = ground arith

-- Within one window at most `max_per_window` alerts go out: those already counted and those that
-- later calls grant, at whatever times of the window and however often they come.
pub granted-bound :
    (max_per_window window : ℕ) (w : Window) (times : List ℕ) (s : Store)
    → 0 < max_per_window
    → 0 < window
    → s.alert_window ≡ some w
    → w.count ≤ max_per_window
    → All (λ now. now < w.window_start + window) times
    → w.count + granted max_per_window window times s ≤ max_per_window
unfolding granted
granted-bound m window w [] s pos pw e inv all = omega arith
granted-bound m window w (now ∷ times) s pos pw e inv all =
    let step = budget_step m window now w s pos pw e all.0 in
    let s' : Store = (consume_global_alert_budget now m window s).1 in
    ground (
      arith,
      step,
      granted-bound m window (counted m w) times s' pos pw step.1 (ground arith) all.1,
    )

-- the segments that are granted on one day, of calls with these sizes
unfoldable pub segments_granted : String → ℕ → List ℕ → Store → ℕ
segments_granted day max_segments [] s = 0
segments_granted day max_segments (n ∷ sizes) s =
    let (sent, s') = consume_sms_budget n day max_segments s in
    (if sent then n else 0) + segments_granted day max_segments sizes s'

sms_step :
    (day : String) (m n : ℕ) (s : Store)
    → 0 < m
    → let (sent, s') = consume_sms_budget n day m s in
      (or_else (lookup day s'.sms_budget) 0
        ≡ or_else (lookup day s.sms_budget) 0 + (if sent then n else 0))
      × (sent ≡ true → or_else (lookup day s'.sms_budget) 0 ≤ m)
unfolding consume_sms_budget
sms_step day m n s pos = ground (
  arith,
  eq_iff day day,
  lookup-upsert day day (or_else (lookup day s.sms_budget) 0 + n) s.sms_budget,
)

-- On one day the segments that were used and those that later calls grant never pass the daily
-- maximum, whatever the sizes of the messages.
pub segments_granted-bound :
    (day : String) (max_segments : ℕ) (sizes : List ℕ) (s : Store)
    → 0 < max_segments
    → or_else (lookup day s.sms_budget) 0 ≤ max_segments
    → or_else (lookup day s.sms_budget) 0 + segments_granted day max_segments sizes s ≤ max_segments
unfolding segments_granted
segments_granted-bound day m [] s pos inv = omega arith
segments_granted-bound day m (n ∷ sizes) s pos inv =
    let step = sms_step day m n s pos in
    let s' : Store = (consume_sms_budget n day m s).1 in
    ground (
      arith,
      step,
      segments_granted-bound day m sizes s' pos
          (elim (Bool-cases (consume_sms_budget n day m s).0) [
            | inl e ↦ step.1 e
            | inr e ↦ ground (arith, step)
          ]),
    )

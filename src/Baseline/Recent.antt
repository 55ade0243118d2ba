-- ===== src/Baseline/Recent.antt =====
-- lanfence/baseline.py and lanfence/risk.py: the recent changes that count towards a device's risk.
pub mod Tally
use Prim.Native.Nat.{compare}
use lan_fence.Base.{
  Bool, List, String, false, filter, leb, length, not, opt_str_eq, some, true, ℕ, ◌&&◌, ◌++◌, ◌-◌,
}
use lan_fence.Baseline.Ingest.{Detection}
use lan_fence.Changes.{significance_at_least}
use lan_fence.Models.Change.{ChangeEvent, ChangeType, Significance, needs_attention, risk_changed}
use lan_fence.Store.Changelog.{change_events_since}

-- _RISK_EVENT_WINDOW, thirty days, and one day
abbrev pub risk_event_window : ℕ
risk_event_window = 2592000000000

abbrev pub one_day : ℕ
one_day = 86400000000

abbrev pub is_about : String → ChangeEvent → Bool
is_about mac e = opt_str_eq e.mac (some mac)

-- `recent_by_mac[mac]` before the devices are compared: the changes of the table, and then those
-- that this run recorded
unfoldable pub recent_by_mac : ℕ → String → Detection → List ChangeEvent
recent_by_mac now mac d =
    filter (is_about mac) (change_events_since (now - risk_event_window) d.log)
    ++ filter (is_about mac) d.recorded

abbrev is_risk_change : ChangeType → Bool
is_risk_change ChangeType.risk_changed = true
is_risk_change _ = false

-- the test of the sum
abbrev pub is_recent_change : ℕ → ChangeEvent → Bool
is_recent_change now e =
    leb (now - one_day) e.occurred_at
    && not (is_risk_change e.change_type)
    && significance_at_least e.significance Significance.low

-- `recent_changes` of `gather_inputs`
unfoldable pub recent_changes : ℕ → List ChangeEvent → ℕ
recent_changes now events =
    length (filter (is_recent_change now) (filter (λ e. needs_attention e now) events))

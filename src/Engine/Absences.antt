-- ===== src/Engine/Absences.antt =====
-- lanfence/engine.py: `evaluate_availability`, the findings about always-on devices that are gone.
pub mod Lanes
use mathlib.Core.Option
use Prim.Native.Nat.{◌/◌, ◌%◌}
use lan_fence.Allowlist.{AllowEntry, match_entry}
use lan_fence.Base.{
  List, Option, String, if◌then◌else◌, is_none, lookup, ltb, map, none, not, some, ℕ, ◌&&◌, ◌+◌,
  ◌==◌, ◌||◌,
}
use lan_fence.Engine.Findings.{device_evidence_lines, finding, ip_text}
use lan_fence.Models.Change.{ChangeType}
use lan_fence.Models.Finding.{Finding, FindingKind}
use lan_fence.Models.Severity.{medium}
use lan_fence.Store.Availability.{Absence, evaluate_availability}
use lan_fence.Store.Coverage.{Coverage}
use lan_fence.Store.State.{Store}
use lan_fence.Text.{show, ◌+++◌}

-- `f"{seconds:.0f}"` of microseconds: to the nearest second, a half to the even one
abbrev round_seconds : ℕ → ℕ
round_seconds t =
    let whole = t / 1000000 in
    let part = t % 1000000 in
    if ltb 500000 part || part == 500000 && whole % 2 == 1 then whole + 1 else whole

-- `allowlist.match(mac) if allowlist is not None else None`
abbrev entry_for : Option (List AllowEntry) → String → Option AllowEntry
entry_for none mac = none
entry_for (some entries) mac = match_entry mac entries

abbrev name_of_entry : Option AllowEntry → Option String
name_of_entry none = none
name_of_entry (some e) = some e.name

unfoldable pub absence_finding : Option (List AllowEntry) → Store → Absence → Finding
absence_finding allowlist s a =
    let entry = entry_for allowlist a.mac in
    record (finding a.mac "Always-on device has been absent longer than expected" medium
      FindingKind.availability
      ("This device is policy'd as always-on and has not been seen for at least "
        +++ show (round_seconds a.offline_after)
        +++ "s since it was confirmed offline.")
      "Check that this device is powered on and connected."
      (device_evidence_lines a.mac (ip_text a.ip) a.hostname a.vendor (not (is_none entry))
        (name_of_entry entry) (lookup a.mac s.metadata))) {
          change_type = some ChangeType.disconnected;
        }

unfoldable pub absence_findings :
    ℕ → ℕ → Coverage → Option (List AllowEntry) → Store → List Finding × Store
absence_findings as_of grace c allowlist s =
    let (due, s') = evaluate_availability as_of grace c s in
    (map (absence_finding allowlist s') due, s')

-- ===== src/Store/Availability.antt =====
-- lanfence/db.py: `evaluate_availability`, the always-on devices whose absence is due for an alert.
pub mod Episodes
use lan_fence.Base.{
  Bool, List, Option, String, Table, [], if◌then◌else◌, leb, lookup, none, not, some, true, ℕ, ◌&&◌,
  ◌+◌, ◌==◌, ◌∷◌,
}
use lan_fence.Models.Device.{Ip, PresenceState, is_always_on, is_online}
use lan_fence.Store.Coverage.{Coverage, path_covered}
use lan_fence.Store.Presence.{set_availability_alerted}
use lan_fence.Store.State.{Row, Store}

-- the dictionaries that the method returns
pub record Absence : Type 0 where
  pub mac : String
  pub ip : Option Ip
  pub hostname : Option String
  pub vendor : Option String
  pub offline_after : ℕ

-- `override or default`: an override of 0 counts as none
abbrev pub effective_delay : Option ℕ → ℕ → ℕ
effective_delay none default = default
effective_delay (some d) default = if d == 0 then default else d

-- the WHERE clause of the join
abbrev is_watched : Row → PresenceState → Bool
is_watched row p = not (is_online row.status) && is_always_on p.policy && not p.availability_alerted

unfoldable pub absence : ℕ → ℕ → Coverage → String → Row → Option PresenceState → Option Absence
absence as_of default c mac row none = none
absence as_of default c mac row (some p) =
    if not (is_watched row p)
    then none
    else if not (path_covered row c)
    then none
    else if leb (row.last_seen + effective_delay p.offline_after default) as_of
    then some (record {
      mac = mac;
      ip = row.ip;
      hostname = row.hostname;
      vendor = row.vendor;
      offline_after = effective_delay p.offline_after default;
    })
    else none

abbrev add_absence : Option Absence → List Absence → List Absence
add_absence none xs = xs
add_absence (some a) xs = a ∷ xs

unfoldable pub absences : ℕ → ℕ → Coverage → Table PresenceState → Table Row → List Absence
absences as_of default c presence [] = []
absences as_of default c presence ((mac, row) ∷ rows) =
    add_absence (absence as_of default c mac row (lookup mac presence))
      (absences as_of default c presence rows)

unfoldable pub mark_alerted : ℕ → List Absence → Store → Store
mark_alerted as_of [] s = s
mark_alerted as_of (a ∷ due) s =
    mark_alerted as_of due (set_availability_alerted a.mac true as_of s)

unfoldable pub evaluate_availability : ℕ → ℕ → Coverage → Store → List Absence × Store
unfolding absences mark_alerted
evaluate_availability as_of default c s =
    let due = absences as_of default c s.presence s.devices in (due, mark_alerted as_of due s)

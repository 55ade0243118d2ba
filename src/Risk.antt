-- ===== src/Risk.antt =====
-- lanfence/risk.py: the security risk score of a device, 0 to 100, and its explanation.
pub mod Sums
pub mod Score
pub mod Order
use lan_fence.Base.{
  Bool, List, Option, String, [], any, elem, false, if◌then◌else◌, leb, ltb, not, or_empty,
  some_and, sort_desc, str_eq, take, true, truthy, ℕ, ◌&&◌, ◌++◌, ◌+◌, ◌==◌, ◌||◌, ◌∷◌,
}
use lan_fence.Models.Change.{RiskLevel, moderate}
use lan_fence.Models.Risk.{RiskAssessment, RiskContribution}
use lan_fence.Models.Severity.{Severity, severity_eq}
use lan_fence.Models.Signed.{abs, negsuc, pos, ℤ, ◌+ℤ◌}
use lan_fence.Text.{lower, show, ◌+++◌}

-- `level_for`, over RISK_THRESHOLDS
unfoldable pub level_for : ℕ → RiskLevel
level_for score =
    if leb 75 score
    then RiskLevel.critical
    else if leb 40 score
    then RiskLevel.high
    else if leb 20 score
    then RiskLevel.moderate
    else RiskLevel.low

pub record RiskInputs : Type 0 where
  pub trusted : Bool
  pub investigating : Bool
  pub first_seen : Option ℕ
  pub online : Bool
  pub always_on : Bool
  pub private_mac : Bool
  pub identity_category : String
  pub identity_confidence : ℕ
  pub identity_manufacturer : Option String
  pub identity_uncertain : Bool
  pub signature_severities : List Severity
  pub new_admin_services : List String
  pub new_services : List String
  pub unexpected_change : Bool
  pub identity_changed : Bool
  pub dhcp_server : Bool
  pub long_absence_return : Bool
  pub recent_changes : ℕ

-- one day, in microseconds
abbrev one_day : ℕ
one_day = 86400000000

-- _PRIVATE_MAC_EXPECTED_CATEGORIES
abbrev private_mac_expected_categories : List String
private_mac_expected_categories = "Phone" ∷ "Tablet" ∷ "Computer" ∷ []

-- `if test: add(factor, label)`, with the factor's entry of RISK_WEIGHTS
abbrev pub adds : Bool → String → String → ℤ → List RiskContribution
adds test factor label points =
    if test then record { factor = factor; label = label; points = points } ∷ [] else []

abbrev pub adds_each : List String → String → String → ℕ → List RiskContribution
adds_each [] factor label points = []
adds_each (x ∷ xs) factor label points =
    record { factor = factor; label = label +++ x; points = pos points }
    ∷ adds_each xs factor label points

abbrev pub has_severity : Severity → List Severity → Bool
has_severity s = any (severity_eq s)

abbrev pub is_recent : Option ℕ → ℕ → Bool
is_recent first_seen now = some_and first_seen (λ t. ltb now (t + one_day))

-- the part of `assess` on who the device is
unfoldable pub standing : RiskInputs → ℕ → List RiskContribution
standing i now =
    adds (not i.trusted) "untrusted" "Device is not trusted" (pos 25)
    ++ adds i.investigating "investigating" "Flagged for investigation" (pos 10)
    ++ adds (is_recent i.first_seen now) "first_seen_recently"
        "Device first seen in the last 24 hours" (pos 10)

unfoldable pub private_mac_factor : RiskInputs → List RiskContribution
private_mac_factor i =
    if not i.private_mac
    then []
    else if elem i.identity_category private_mac_expected_categories
    then adds true "private_mac_expected"
        ("Private MAC address (normal for a " +++ lower i.identity_category +++ ")") (pos 2)
    else adds true "private_mac" "Locally administered (private) MAC address" (pos 10)

unfoldable pub signature_factor : RiskInputs → List RiskContribution
signature_factor i =
    if has_severity Severity.critical i.signature_severities
      || has_severity Severity.high i.signature_severities
    then adds true "rogue_signature_high" "Matches a rogue-device signature (high)" (pos 35)
    else adds (has_severity Severity.medium i.signature_severities) "rogue_signature_medium"
        "Matches a rogue-device signature (medium)" (pos 20)

unfoldable pub identity_factor : RiskInputs → List RiskContribution
identity_factor i =
    if i.identity_confidence == 0
    then adds true "identity_unknown" "Device identity unknown" (pos 10)
    else adds i.identity_uncertain "identity_uncertain" "Device identity uncertain" (pos 5)
      ++ adds (truthy i.identity_manufacturer) "known_manufacturer"
          ("Known manufacturer (" +++ or_empty i.identity_manufacturer +++ ")") (negsuc 4)

-- at most _MAX_COUNTED_SERVICES of each kind count
unfoldable pub service_factor : RiskInputs → List RiskContribution
service_factor i =
    adds_each (take 2 i.new_admin_services) "new_admin_service" "New administrative service: " 25
    ++ adds_each (take 2 i.new_services) "new_service" "New service not in baseline: " 8

unfoldable pub behaviour_factor : RiskInputs → List RiskContribution
behaviour_factor i =
    adds i.unexpected_change "unexpected_change"
      "Unexpected behaviour change against an established baseline" (pos 20)
    ++ adds i.identity_changed "identity_changed" "Identity changed recently" (pos 15)
    ++ adds (not i.trusted && str_eq i.identity_category "Network Infrastructure")
        "untrusted_infrastructure" "Untrusted network infrastructure device" (pos 15)
    ++ adds i.dhcp_server "dhcp_server" "Answered as an unapproved DHCP server" (pos 30)
    ++ adds (i.always_on && not i.online) "always_on_absent" "Always-on device is offline" (pos 5)
    ++ adds i.long_absence_return "long_absence_return" "Returned after an unusually long absence"
        (pos 5)
    ++ adds (leb 3 i.recent_changes) "many_changes"
        (show i.recent_changes +++ " unreviewed changes in the last 24 hours") (pos 10)

-- the list that `assess` fills, in the order in which it does
abbrev pub contributions_of : RiskInputs → ℕ → List RiskContribution
contributions_of i now =
    standing i now
    ++ private_mac_factor i
    ++ signature_factor i
    ++ identity_factor i
    ++ service_factor i
    ++ behaviour_factor i

-- `sum(c.points for c in contributions)`
abbrev pub total : List RiskContribution → ℤ
total [] = pos 0
total (c ∷ cs) = c.points +ℤ total cs

-- `max(0, min(100, n))`
abbrev pub clamp : ℤ → ℕ
clamp (pos n) = if ltb n 100 then n else 100
clamp (negsuc n) = 0

abbrev is_high_or_critical : RiskLevel → Bool
is_high_or_critical RiskLevel.high = true
is_high_or_critical RiskLevel.critical = true
is_high_or_critical _ = false

abbrev is_moderate : RiskLevel → Bool
is_moderate RiskLevel.moderate = true
is_moderate _ = false

abbrev pub check_service : List String → String → String
check_service [] otherwise = otherwise
check_service (s ∷ ss) otherwise =
    "This deserves investigation. Check whether " +++ s
    +++ " was enabled deliberately - if it was, accept the change as expected."

-- `_recommendation`
unfoldable pub recommend : RiskInputs → RiskLevel → String
recommend i level =
    if i.dhcp_server
    then "This deserves investigation: find out why this device answered DHCP requests. If it's an expected DHCP server, add it to dhcp_servers.approved."
    else if is_high_or_critical level
    then check_service i.new_admin_services (
        if not i.trusted
        then "This deserves investigation. Identify the device: if it belongs on your network, trust it; if not, remove it."
        else "This deserves investigation. Review its recent changes.")
    else if is_moderate level
    then if not i.trusted
      then "Review this device when convenient, and trust it if it's yours."
      else "Review its recent changes when convenient."
    else "No action needed."

unfoldable pub assess : RiskInputs → ℕ → RiskAssessment
unfolding standing private_mac_factor signature_factor identity_factor service_factor
    behaviour_factor
assess i now =
    let cs = contributions_of i now in
    let score = clamp (total cs) in
    record {
      score = score;
      level = level_for score;
      contributions = sort_desc (λ (c : RiskContribution). abs c.points) cs;
      recommendation = recommend i (level_for score);
      assessed_at = now;
    }

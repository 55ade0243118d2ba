-- ===== src/Policy.antt =====
-- lanfence/policy.py: alert policies, of which the first enabled one that matches decides.
pub mod Order
pub mod Defaults
use lan_fence.Base.{
  Bool, List, Option, String, [], any, false, find, if◌then◌else◌, none, not, opt_str_eq, some,
  some_and, str_eq, true, ℕ, ◌==◌, ◌||◌, ◌∷◌,
}
use lan_fence.Changes.{is_admin_service, significance_at_least}
use lan_fence.Models.Change.{
  ChangeEvent, ChangeReviewState, ChangeType, RiskLevel, Significance, change_eq,
  dhcp_server_unexpected, level_index, no_current, unreviewed,
}
use lan_fence.Models.Finding.{Finding}
use lan_fence.Models.Severity.{Severity}

pub record PolicyConditions : Type 0 where
  pub trusted : Option Bool
  pub categories : List String
  pub min_significance : Option Significance
  pub admin_service : Option Bool
  pub services : List String
  pub risk_levels : List RiskLevel
  pub rising : Option Bool

-- "alert", "digest" and "none"
pub data Action : Type 0 where
  alert digest no_action : Action

abbrev pub is_alert : Action → Bool
is_alert alert = true
is_alert _ = false

pub record Policy : Type 0 where
  pub id : String
  pub description : String
  pub enabled : Bool
  pub triggers : List ChangeType
  pub conditions : PolicyConditions
  pub severity : Severity
  pub action : Action
  pub cooldown : Option ℕ

pub record DeviceContext : Type 0 where
  pub trusted : Bool
  pub category : String
  pub label : Option String

abbrev pub bool_eq : Bool → Bool → Bool
bool_eq true b = b
bool_eq false b = not b

-- `wanted is not None and value != wanted`
abbrev pub differs : Option Bool → Bool → Bool
differs wanted value = some_and wanted (λ w. not (bool_eq value w))

-- `xs and x not in xs`
abbrev pub not_in {ℓ} : {A : Type ℓ} → (A → Bool) → List A → Bool
not_in is [] = false
not_in is (x ∷ xs) = not (any is (x ∷ xs))

abbrev pub is_text : Option String → String → Bool
is_text s t = opt_str_eq s (some t)

abbrev pub is_level : Option RiskLevel → RiskLevel → Bool
is_level l k = some_and l (λ j. level_index j == level_index k)

unfoldable pub matches : Policy → ChangeEvent → DeviceContext → Bool
matches p e d =
    if not p.enabled || not (any (change_eq e.change_type) p.triggers)
    then false
    else if differs p.conditions.trusted d.trusted
    then false
    else if not_in (str_eq d.category) p.conditions.categories
    then false
    else if some_and p.conditions.min_significance
        (λ m. not (significance_at_least e.significance m))
    then false
    else if differs p.conditions.admin_service (is_admin_service e.signal e.subject)
    then false
    else if not_in (is_text e.subject) p.conditions.services
    then false
    else if not_in (is_level e.current.level) p.conditions.risk_levels
    then false
    else if differs p.conditions.rising e.current.rising
    then false
    else true

-- `match`, the first policy that matches
unfoldable pub match_policy : List Policy → ChangeEvent → DeviceContext → Option Policy
match_policy ps e d = find (λ (p : Policy). matches p e d) ps

-- BUILTIN_ALERTED
abbrev pub is_builtin_alerted : Option ChangeType → Bool
is_builtin_alerted (some ChangeType.new_device) = true
is_builtin_alerted (some ChangeType.reappeared) = true
is_builtin_alerted (some ChangeType.disconnected) = true
is_builtin_alerted (some ChangeType.dhcp_server_unexpected) = true
is_builtin_alerted _ = false

-- _SEVERITY_TO_SIGNIFICANCE
abbrev significance_of : Severity → Significance
significance_of Severity.info = Significance.info
significance_of Severity.medium = Significance.medium
significance_of Severity.high = Significance.high
significance_of Severity.critical = Significance.critical

-- the change that a built-in finding stands for
abbrev pub pseudo_event : Finding → ChangeType → ChangeEvent
pseudo_event f t = record {
  id = none;
  mac = f.mac;
  subject_id = f.subject_id;
  change_type = t;
  occurred_at = 0;
  signal = none;
  subject = none;
  current = no_current;
  evidence = [];
  significance = significance_of f.severity;
  suppressed = false;
  review_state = ChangeReviewState.unreviewed;
  review_note = none;
  reviewed_at = none;
  snoozed_until = none;
  policy_id = none;
  alerted_at = none;
}

abbrev pub shaped : Finding → Option Policy → Finding × Bool
shaped f none = (f, true)
shaped f (some p) = (
  record f { severity = p.severity; policy_id = some p.id; cooldown = p.cooldown },
  is_alert p.action,
)

abbrev pub shape_as : Finding → List Policy → DeviceContext → Option ChangeType → Finding × Bool
shape_as f ps d none = (f, true)
shape_as f ps d (some t) = shaped f (match_policy ps (pseudo_event f t) d)

-- the finding, with the policy's severity and id, and whether it is dispatched now
unfoldable pub shape_builtin_finding : Finding → List Policy → DeviceContext → Finding × Bool
shape_builtin_finding f ps d =
    if is_builtin_alerted f.change_type then shape_as f ps d f.change_type else (f, true)

-- `effective_policies`
abbrev pub effective_policies : List Policy → Option (List Policy) → List Policy
effective_policies defaults none = defaults
effective_policies defaults (some ps) = ps

-- ===== src/Models/Change.antt =====
-- lanfence/models.py: change types, significances and change events.
use lan_fence.Base.{
  ℕ, String, Bool, true, false, Option, none, List, ltb, ◌==◌, some_and, if◌then◌else◌, ◌||◌, ◌&&◌,
}

pub data ChangeType : Type 0 where
  new_device reappeared disconnected : ChangeType
  ip_changed ipv6_prefix_new hostname_changed identity_changed trust_changed : ChangeType
  service_new service_removed : ChangeType
  mdns_service_new mdns_service_removed : ChangeType
  ssdp_service_new ssdp_service_removed : ChangeType
  baseline_established baseline_reset : ChangeType
  unknown_device_present dhcp_server_unexpected risk_changed : ChangeType

-- CHANGE_TYPES.index
abbrev pub change_index : ChangeType → ℕ
change_index new_device = 0
change_index reappeared = 1
change_index disconnected = 2
change_index ip_changed = 3
change_index ipv6_prefix_new = 4
change_index hostname_changed = 5
change_index identity_changed = 6
change_index trust_changed = 7
change_index service_new = 8
change_index service_removed = 9
change_index mdns_service_new = 10
change_index mdns_service_removed = 11
change_index ssdp_service_new = 12
change_index ssdp_service_removed = 13
change_index baseline_established = 14
change_index baseline_reset = 15
change_index unknown_device_present = 16
change_index dhcp_server_unexpected = 17
change_index risk_changed = 18

abbrev pub change_eq : ChangeType → ChangeType → Bool
change_eq a b = change_index a == change_index b

pub data Significance : Type 0 where
  info low medium high critical : Significance

-- SIGNIFICANCES.index
abbrev pub significance_index : Significance → ℕ
significance_index info = 0
significance_index low = 1
significance_index medium = 2
significance_index high = 3
significance_index critical = 4

pub data ChangeReviewState : Type 0 where
  unreviewed reviewed investigating snoozed accepted : ChangeReviewState

abbrev pub is_closed : ChangeReviewState → Bool
is_closed reviewed = true
is_closed accepted = true
is_closed _ = false

abbrev pub is_snoozed_state : ChangeReviewState → Bool
is_snoozed_state snoozed = true
is_snoozed_state _ = false

pub data RiskLevel : Type 0 where
  low moderate high critical : RiskLevel

-- RISK_LEVELS.index
abbrev pub level_index : RiskLevel → ℕ
level_index RiskLevel.low = 0
level_index RiskLevel.moderate = 1
level_index RiskLevel.high = 2
level_index RiskLevel.critical = 3

-- The entries of a change's `current` dictionary that code reads back.
pub record Current : Type 0 where
  pub level : Option RiskLevel
  pub rising : Bool
  pub absent_days : Option ℕ

abbrev pub no_current : Current
no_current = record { level = none; rising = false; absent_days = none }

-- `previous`, `source` and the risk scores, which no modelled code reads, are left out.
pub record ChangeEvent : Type 0 where
  pub id : Option ℕ
  pub mac : Option String
  pub subject_id : Option String
  pub change_type : ChangeType
  pub occurred_at : ℕ
  pub signal : Option String
  pub subject : Option String
  pub current : Current
  pub evidence : List String
  pub significance : Significance
  pub suppressed : Bool
  pub review_state : ChangeReviewState
  pub review_note : Option String
  pub reviewed_at : Option ℕ
  pub snoozed_until : Option ℕ
  pub policy_id : Option String
  pub alerted_at : Option ℕ

-- `ChangeEvent.needs_attention`
unfoldable pub needs_attention : ChangeEvent → ℕ → Bool
needs_attention e now =
    if e.suppressed || is_closed e.review_state
    then false
    else if is_snoozed_state e.review_state && some_and e.snoozed_until (λ until. ltb now until)
    then false
    else true

-- ===== src/Models/Finding.antt =====
-- lanfence/models.py: findings.
use lan_fence.Base.{Bool, List, Option, String, false, true, ℕ}
use lan_fence.Models.Change.{ChangeType}
use lan_fence.Models.Severity.{Severity}

pub data FindingKind : Type 0 where
  security lifecycle availability network_service change : FindingKind

abbrev pub is_lifecycle : FindingKind → Bool
is_lifecycle lifecycle = true
is_lifecycle _ = false

pub record Finding : Type 0 where
  pub mac : Option String
  pub title : String
  pub severity : Severity
  pub rationale : String
  pub recommendation : String
  pub evidence : List String
  pub kind : FindingKind
  pub subject_id : Option String
  pub change_type : Option ChangeType
  pub policy_id : Option String
  pub change_event_id : Option ℕ
  pub cooldown : Option ℕ
  pub cooldown_key : Option String

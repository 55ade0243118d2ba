-- ===== src/Models/Risk.antt =====
-- lanfence/models.py: risk assessments.
use lan_fence.Base.{List, String, ℕ}
use lan_fence.Models.Change.{RiskLevel}
use lan_fence.Models.Signed.{ℤ}

pub record RiskContribution : Type 0 where
  pub factor : String
  pub label : String
  pub points : ℤ

pub record RiskAssessment : Type 0 where
  pub score : ℕ
  pub level : RiskLevel
  pub contributions : List RiskContribution
  pub recommendation : String
  pub assessed_at : ℕ

-- ===== src/Models/Severity.antt =====
-- lanfence/models.py: severities, and the ranks by which they are compared.
use lan_fence.Base.{ℕ, ◌≡◌, arith, ◌==◌, Bool}

pub data Severity : Type 0 where
  info medium high critical : Severity

-- SEVERITIES.index, which is engine.py's _SEVERITY_RANK too
abbrev pub rank : Severity → ℕ
rank info = 0
rank medium = 1
rank high = 2
rank critical = 3

abbrev pub severity_eq : Severity → Severity → Bool
severity_eq a b = rank a == rank b

pub severity_eq-eq : (a b : Severity) → severity_eq a b ≡ Bool.true → a ≡ b
severity_eq-eq a b h = ground arith

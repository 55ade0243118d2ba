-- ===== src/Risk/Order.antt =====
-- The total of a list of contributions does not depend on their order.
use lan_fence.Base.{
  IsDescending, List, ap, arith, refl, sort_desc, sort_desc-IsDescending, sum-sort_desc, sym, ℕ,
  ◌≡◌,
}
use lan_fence.Models.Risk.{RiskContribution}
use lan_fence.Models.Signed.{abs, negsuc, pos, ℤ, ◌+ℤ◌}
use lan_fence.Risk.{RiskInputs, assess, clamp, contributions_of, level_for, total}

+ℤ-swap : (a b t : ℤ) → a +ℤ (b +ℤ t) ≡ b +ℤ (a +ℤ t)
+ℤ-swap (pos a) (pos b) (pos t) = ground arith
+ℤ-swap (pos a) (pos b) (negsuc t) = ground arith
+ℤ-swap (pos a) (negsuc b) (pos t) = ground arith
+ℤ-swap (pos a) (negsuc b) (negsuc t) = ground arith
+ℤ-swap (negsuc a) (pos b) (pos t) = ground arith
+ℤ-swap (negsuc a) (pos b) (negsuc t) = ground arith
+ℤ-swap (negsuc a) (negsuc b) (pos t) = ground arith
+ℤ-swap (negsuc a) (negsuc b) (negsuc t) = ground arith

total-sort_desc :
    (key : RiskContribution → ℕ) (cs : List RiskContribution) → total (sort_desc key cs) ≡ total cs
total-sort_desc key cs =
    sum-sort_desc key total (λ c t. c.points +ℤ t) (λ c cs. refl)
      (λ c d t. +ℤ-swap c.points d.points t) cs

-- The score and the level of an assessment are those of the contributions that it lists, summed and
-- clamped to 0..100, and it lists them by falling weight.
pub assess-explained :
    (i : RiskInputs) (now : ℕ)
    → ((assess i now).score ≡ clamp (total ((assess i now).contributions)))
      × ((assess i now).level ≡ level_for (clamp (total ((assess i now).contributions))))
      × IsDescending (λ (c : RiskContribution). abs c.points) ((assess i now).contributions)
unfolding assess
assess-explained i now =
    let key : RiskContribution → ℕ = λ c. abs c.points in
    let same = total-sort_desc key (contributions_of i now) in
    (
      ap clamp (sym same),
      ap (λ t. level_for (clamp t)) (sym same),
      sort_desc-IsDescending key (contributions_of i now),
    )

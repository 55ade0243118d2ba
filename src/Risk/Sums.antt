-- ===== src/Risk/Sums.antt =====
-- The points of a list of contributions: what they gain, what they lose, and the total.
use lan_fence.Base.{
  List, String, [], ap, arith, false, refl, suc, take, ℕ, ◌++◌, ◌+◌, ◌∙◌, ◌∷◌, ◌≡◌, ◌≤◌,
}
use lan_fence.Models.Risk.{RiskContribution}
use lan_fence.Models.Signed.{minus, negsuc, pos, ℤ, ◌+ℤ◌}
use lan_fence.Risk.{
  RiskInputs, adds_each, behaviour_factor, contributions_of, identity_factor, private_mac_factor,
  service_factor, signature_factor, standing, total,
}

unfoldable pub gain : ℤ → ℕ
gain (pos n) = n
gain (negsuc n) = 0

unfoldable pub loss : ℤ → ℕ
loss (pos n) = 0
loss (negsuc n) = suc n

abbrev pub gains : List RiskContribution → ℕ
gains [] = 0
gains (c ∷ cs) = gain c.points + gains cs

abbrev pub losses : List RiskContribution → ℕ
losses [] = 0
losses (c ∷ cs) = loss c.points + losses cs

+ℤ-minus : (z : ℤ) (m n : ℕ) → z +ℤ minus m n ≡ minus (gain z + m) (loss z + n)
unfolding gain loss
+ℤ-minus (pos k) m n = ground arith
+ℤ-minus (negsuc k) m n = ground arith

pub total_lem : (cs : List RiskContribution) → total cs ≡ minus (gains cs) (losses cs)
total_lem [] = refl
total_lem (c ∷ cs) =
    ap (λ t. c.points +ℤ t) (total_lem cs) ∙ +ℤ-minus c.points (gains cs) (losses cs)

gains-append : (xs ys : List RiskContribution) → gains (xs ++ ys) ≡ gains xs + gains ys
gains-append [] ys = omega arith
gains-append (x ∷ xs) ys = omega (arith, gains-append xs ys)

losses-append : (xs ys : List RiskContribution) → losses (xs ++ ys) ≡ losses xs + losses ys
losses-append [] ys = omega arith
losses-append (x ∷ xs) ys = omega (arith, losses-append xs ys)

losses-adds_each :
    (xs : List String) (factor label : String) (n : ℕ) → losses (adds_each xs factor label n) ≡ 0
unfolding loss
losses-adds_each [] factor label n = refl
losses-adds_each (x ∷ xs) factor label n = omega (arith, losses-adds_each xs factor label n)

losses-standing : (i : RiskInputs) (now : ℕ) → losses (standing i now) ≡ 0
unfolding standing loss
losses-standing i now = ground arith

losses-behaviour : (i : RiskInputs) → losses (behaviour_factor i) ≡ 0
unfolding behaviour_factor loss
losses-behaviour i = ground arith

abbrev admin_part : RiskInputs → List RiskContribution
admin_part i =
    adds_each (take 2 i.new_admin_services) "new_admin_service" "New administrative service: " 25

abbrev other_part : RiskInputs → List RiskContribution
other_part i = adds_each (take 2 i.new_services) "new_service" "New service not in baseline: " 8

losses-service : (i : RiskInputs) → losses (service_factor i) ≡ 0
unfolding service_factor
losses-service i = omega (
  arith,
  losses-append (admin_part i) (other_part i),
  losses-adds_each (take 2 i.new_admin_services) "new_admin_service" "New administrative service: "
      25,
  losses-adds_each (take 2 i.new_services) "new_service" "New service not in baseline: " 8,
)

pub losses-identity : (i : RiskInputs) → losses (identity_factor i) ≤ 5
unfolding identity_factor loss
losses-identity i = ground arith

losses-private_mac : (i : RiskInputs) → losses (private_mac_factor i) ≡ 0
unfolding private_mac_factor loss
losses-private_mac i = ground arith

losses-signature : (i : RiskInputs) → losses (signature_factor i) ≡ 0
unfolding signature_factor loss
losses-signature i = ground arith

pub gains-standing : (i : RiskInputs) (now : ℕ) → i.trusted ≡ false → 25 ≤ gains (standing i now)
unfolding standing gain
gains-standing i now h = ground arith

gains-admin :
    (i : RiskInputs) (s : String) (ss : List String)
    → i.new_admin_services ≡ s ∷ ss
    → 25 ≤ gains (admin_part i)
unfolding gain
gains-admin i s ss h = rw h (omega arith)

pub gains-service :
    (i : RiskInputs) (s : String) (ss : List String)
    → i.new_admin_services ≡ s ∷ ss
    → 25 ≤ gains (service_factor i)
unfolding service_factor gain
gains-service i s ss h =
    omega (arith, gains-append (admin_part i) (other_part i), gains-admin i s ss h)

gains-six :
    (a b c d e f : List RiskContribution)
    → gains (a ++ b ++ c ++ d ++ e ++ f) ≡ gains a + gains b + gains c + gains d + gains e + gains f
gains-six a b c d e f = omega (
  arith,
  gains-append (a ++ b ++ c ++ d ++ e) f,
  gains-append (a ++ b ++ c ++ d) e,
  gains-append (a ++ b ++ c) d,
  gains-append (a ++ b) c,
  gains-append a b,
)

losses-six :
    (a b c d e f : List RiskContribution)
    → losses (a ++ b ++ c ++ d ++ e ++ f)
      ≡ losses a + losses b + losses c + losses d + losses e + losses f
losses-six a b c d e f = omega (
  arith,
  losses-append (a ++ b ++ c ++ d ++ e) f,
  losses-append (a ++ b ++ c ++ d) e,
  losses-append (a ++ b ++ c) d,
  losses-append (a ++ b) c,
  losses-append a b,
)

pub gains-contributions_of :
    (i : RiskInputs) (now : ℕ)
    → gains (contributions_of i now)
      ≡ gains (standing i now)
        + gains (private_mac_factor i)
        + gains (signature_factor i)
        + gains (identity_factor i)
        + gains (service_factor i)
        + gains (behaviour_factor i)
gains-contributions_of i now =
    gains-six (standing i now) (private_mac_factor i) (signature_factor i) (identity_factor i)
      (service_factor i) (behaviour_factor i)

pub losses-contributions_of :
    (i : RiskInputs) (now : ℕ) → losses (contributions_of i now) ≡ losses (identity_factor i)
losses-contributions_of i now =
    losses-six (standing i now) (private_mac_factor i) (signature_factor i) (identity_factor i)
      (service_factor i) (behaviour_factor i)
    ∙ omega (
      arith,
      losses-standing i now,
      losses-private_mac i,
      losses-signature i,
      losses-service i,
      losses-behaviour i,
    )

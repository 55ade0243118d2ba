-- ===== src/Risk/Score.antt =====
-- What the score of a device is made of.
use lan_fence.Base.{Bool, List, String, ap, arith, false, refl, true, ℕ, ◌+◌, ◌∷◌, ◌≡◌, ◌≤◌}
use lan_fence.Models.Change.{RiskLevel, level_index}
use lan_fence.Models.Signed.{minus}
use lan_fence.Risk.{
  RiskInputs, assess, behaviour_factor, clamp, contributions_of, identity_factor, level_for,
  private_mac_factor, service_factor, signature_factor, standing,
}
use lan_fence.Risk.Sums.{
  gain, gains, gains-contributions_of, gains-service, gains-standing, losses,
  losses-contributions_of, losses-identity, total_lem,
}

clamp-minus : (k g l : ℕ) → k + l ≤ g → k ≤ 100 → k ≤ clamp (minus g l)
clamp-minus k g l h j = ground arith

clamp-monotone : (g g' l : ℕ) → g ≤ g' → clamp (minus g l) ≤ clamp (minus g' l)
clamp-monotone g g' l h = ground arith

level_for-monotone : (m n : ℕ) → m ≤ n → level_index (level_for m) ≤ level_index (level_for n)
unfolding level_for
level_for-monotone m n h = ground arith

score_lem :
    (i : RiskInputs) (now : ℕ)
    → (assess i now).score
      ≡ clamp (minus (gains (contributions_of i now)) (losses (contributions_of i now)))
unfolding assess
score_lem i now = ap clamp (total_lem (contributions_of i now))

level_lem : (i : RiskInputs) (now : ℕ) → (assess i now).level ≡ level_for (assess i now).score
unfolding assess
level_lem i now = refl

at_least :
    (i : RiskInputs) (now k : ℕ)
    → k + 5 ≤ gains (contributions_of i now)
    → k ≤ 100
    → k ≤ (assess i now).score
at_least i now k h j =
    rw (score_lem i now, losses-contributions_of i now)
      (clamp-minus k (gains (contributions_of i now)) (losses (identity_factor i))
        (omega (arith, losses-identity i)) j)

-- A device that is not trusted and shows a new remote-administration service has at least the risk
-- level high, whatever else is known of it.
pub assess-new_admin_service :
    (i : RiskInputs) (now : ℕ) (s : String) (ss : List String)
    → i.trusted ≡ false
    → i.new_admin_services ≡ s ∷ ss
    → level_index RiskLevel.high ≤ level_index (assess i now).level
unfolding level_for
assess-new_admin_service i now s ss h k = rw (level_lem i now) (
    level_for-monotone 45 (assess i now).score (
      at_least i now 45
        (omega
          (arith, gains-contributions_of i now, gains-standing i now h, gains-service i s ss k))
        (omega arith)))

-- the same inputs, trusted or not
abbrev pub with_trust : Bool → RiskInputs → RiskInputs
with_trust b i = record i { trusted = b }

standing-with_trust :
    (i : RiskInputs) (now : ℕ)
    → gains (standing (with_trust true i) now) ≤ gains (standing (with_trust false i) now)
unfolding standing gain
standing-with_trust i now = ground arith

behaviour-with_trust :
    (i : RiskInputs)
    → gains (behaviour_factor (with_trust true i)) ≤ gains (behaviour_factor (with_trust false i))
unfolding behaviour_factor gain
behaviour-with_trust i = ground arith

gains-with_trust :
    (i : RiskInputs) (now : ℕ)
    → gains (contributions_of (with_trust true i) now)
      ≤ gains (contributions_of (with_trust false i) now)
unfolding standing behaviour_factor private_mac_factor signature_factor identity_factor
    service_factor gain
gains-with_trust i now = omega (
  arith,
  gains-contributions_of (with_trust true i) now,
  gains-contributions_of (with_trust false i) now,
  standing-with_trust i now,
  behaviour-with_trust i,
)

same_losses :
    (i : RiskInputs) (now : ℕ)
    → clamp (
        minus
          (gains (contributions_of (with_trust true i) now))
          (losses (identity_factor (with_trust true i))))
      ≤ clamp (
          minus
            (gains (contributions_of (with_trust false i) now))
            (losses (identity_factor (with_trust false i))))
unfolding identity_factor
same_losses i now =
    clamp-monotone (gains (contributions_of (with_trust true i) now))
      (gains (contributions_of (with_trust false i) now)) (losses (identity_factor i))
      (gains-with_trust i now)

score-with_trust :
    (i : RiskInputs) (now : ℕ)
    → (assess (with_trust true i) now).score ≤ (assess (with_trust false i) now).score
score-with_trust i now =
    rw
      (
        score_lem (with_trust true i) now,
        score_lem (with_trust false i) now,
        losses-contributions_of (with_trust true i) now,
        losses-contributions_of (with_trust false i) now,
      )
      (same_losses i now)

-- Trusting a device never raises its score or its level, all else being equal.
pub assess-trust :
    (i : RiskInputs) (now : ℕ)
    → ((assess (with_trust true i) now).score ≤ (assess (with_trust false i) now).score)
      × (level_index (assess (with_trust true i) now).level
          ≤ level_index (assess (with_trust false i) now).level)
assess-trust i now = (
  score-with_trust i now,
  rw (level_lem (with_trust true i) now, level_lem (with_trust false i) now)
      (level_for-monotone (assess (with_trust true i) now).score
        (assess (with_trust false i) now).score (score-with_trust i now)),
)

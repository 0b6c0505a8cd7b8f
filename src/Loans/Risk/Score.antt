-- ===== src/Loans/Risk/Score.antt =====
-- What the score of the scorecard says.
use finchat.Base.{ℕ, ◌≤◌, ◌<◌, ◌≡◌, refl, String, arith, leb, Bool-cases, ◌⊎◌, inl, inr}
use finchat.Loans.Risk.{
  CreditProfile, factor, credit_factor, dti_factor, overdraft_factor, size_factor, total, bounded,
  recommend, factors_of, score_risk,
}

credit_factor_le : (cs : ℕ) → (credit_factor cs).points ≤ 40
unfolding credit_factor factor
credit_factor_le cs = ground arith

dti_factor_le : (dti : ℕ) → (dti_factor dti).points ≤ 30
unfolding dti_factor factor
dti_factor_le dti = ground arith

overdraft_factor_le : (n : ℕ) → (overdraft_factor n).points ≤ 20
unfolding overdraft_factor factor
overdraft_factor_le n = ground arith

size_factor_le : (amount : ℕ) → (size_factor amount).points ≤ 10
unfolding size_factor factor
size_factor_le amount = ground arith

pub score_risk-total :
    (p : CreditProfile) (amount events : ℕ)
    → ((score_risk p amount events).risk_score ≡ total (score_risk p amount events).factors)
      × ((score_risk p amount events).risk_score ≤ 100)
unfolding score_risk factors_of total bounded
score_risk-total p amount events =
    let a = credit_factor_le p.credit_score in
    let b = dti_factor_le p.dti_ratio in
    let c = overdraft_factor_le events in
    let d = size_factor_le amount in (ground (arith, a, b, c, d), ground (arith, a, b, c, d))

-- How severe a recommendation is.
abbrev pub IsRecommended : ℕ → String → Type 0
IsRecommended score rec =
    ((rec ≡ "APPROVE") × (score ≤ 35))
    ⊎ (((rec ≡ "REVIEW") × (35 < score) × (score < 65)) ⊎ ((rec ≡ "DECLINE") × (65 ≤ score)))

recommend-IsRecommended : (score : ℕ) → IsRecommended score (recommend score)
unfolding recommend
recommend-IsRecommended score = elim (Bool-cases (leb score 35)) [
  | inl low ↦ rw low (inl (refl, ground arith))
  | inr above ↦ rw above (elim (Bool-cases (leb 65 score)) [
    | inl high ↦ rw high (inr (inr (refl, ground arith)))
    | inr below ↦ rw below (inr (inl (refl, ground arith, ground arith)))
  ])
]

-- The score is the sum of the points of the four factors and at most 100, so that its bound never
-- changes it; a loan is recommended for approval with at most 35 points, for decline with at least
-- 65, and for review between them.
pub score_risk-exact :
    (p : CreditProfile) (amount events : ℕ)
    → let r = score_risk p amount events in
      (r.risk_score ≡ total r.factors)
      × (r.risk_score ≤ 100)
      × IsRecommended r.risk_score r.recommendation
unfolding score_risk
score_risk-exact p amount events =
    let sum = score_risk-total p amount events in (sum.0, sum.1, recommend-IsRecommended _)

credit_factor_antitone : (a b : ℕ) → a ≤ b → (credit_factor b).points ≤ (credit_factor a).points
unfolding credit_factor factor
credit_factor_antitone a b h = ground arith

dti_factor_mono : (a b : ℕ) → a ≤ b → (dti_factor a).points ≤ (dti_factor b).points
unfolding dti_factor factor
dti_factor_mono a b h = ground arith

overdraft_factor_mono :
    (a b : ℕ) → a ≤ b → (overdraft_factor a).points ≤ (overdraft_factor b).points
unfolding overdraft_factor factor
overdraft_factor_mono a b h = ground arith

size_factor_mono : (a b : ℕ) → a ≤ b → (size_factor a).points ≤ (size_factor b).points
unfolding size_factor factor
size_factor_mono a b h = ground arith

-- A loan that is no better in any respect has no better score: a credit score that is not higher,
-- and a debt-to-income ratio, an amount and a number of overdrafts that are not lower, give at least
-- the score.
pub score_risk_mono :
    (p q : CreditProfile) (amount more events worse : ℕ)
    → q.credit_score ≤ p.credit_score
    → p.dti_ratio ≤ q.dti_ratio
    → amount ≤ more
    → events ≤ worse
    → (score_risk p amount events).risk_score ≤ (score_risk q more worse).risk_score
unfolding score_risk factors_of total bounded
score_risk_mono p q amount more events worse credit dti size overdrafts =
    let a = credit_factor_antitone q.credit_score p.credit_score credit in
    let b = dti_factor_mono p.dti_ratio q.dti_ratio dti in
    let c = overdraft_factor_mono events worse overdrafts in
    let d = size_factor_mono amount more size in ground (arith, a, b, c, d)

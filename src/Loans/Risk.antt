-- ===== src/Loans/Risk.antt =====
-- The scorecard of products/loans/api/risk.py.
pub mod Score
pub mod Reasons
use finchat.Base.{
  ℕ, ◌+◌, String, Bool, List, [], ◌∷◌, map, select, take, if◌then◌else◌, ltb, leb, ◌==◌,
}

pub record CreditProfile : Type 0 where
  pub loan_id : String
  pub credit_score : ℕ
  pub annual_income : ℕ
  pub existing_debt : ℕ
  pub dti_ratio : ℕ

-- The sentence of a factor, with the number that it names.
pub data Note : Type 0 where
  excellent_credit : ℕ → Note
  good_credit : ℕ → Note
  fair_credit : ℕ → Note
  poor_credit : ℕ → Note
  healthy_dti : ℕ → Note
  elevated_dti : ℕ → Note
  high_dti : ℕ → Note
  no_overdraft_history : Note
  overdraft_events : ℕ → Note
  frequent_overdrafts : ℕ → Note
  large_loan : Note
  moderate_loan : Note
  modest_loan : Note

pub record Factor : Type 0 where
  pub code : String
  pub label : String
  pub value : ℕ
  pub points : ℕ
  pub max_points : ℕ
  pub note : Note
  pub impact : String

-- `_factor`
unfoldable pub factor : (code label : String) → (value points max_points : ℕ) → Note → Factor
factor code label value points max_points note = record {
  code = code;
  label = label;
  value = value;
  points = points;
  max_points = max_points;
  note = note;
  impact = if ltb 0 points then "increases risk" else "favorable";
}

unfoldable pub credit_factor : ℕ → Factor
unfolding factor
credit_factor cs =
    if leb 760 cs
    then factor "CREDIT" "Credit score" cs 0 40 (excellent_credit cs)
    else if leb 700 cs
    then factor "CREDIT" "Credit score" cs 10 40 (good_credit cs)
    else if leb 640 cs
    then factor "CREDIT" "Credit score" cs 22 40 (fair_credit cs)
    else factor "CREDIT" "Credit score" cs 40 40 (poor_credit cs)

unfoldable pub dti_factor : ℕ → Factor
unfolding factor
dti_factor dti =
    if leb dti 280
    then factor "DTI" "Debt-to-income" dti 0 30 (healthy_dti dti)
    else if leb dti 430
    then factor "DTI" "Debt-to-income" dti 15 30 (elevated_dti dti)
    else factor "DTI" "Debt-to-income" dti 30 30 (high_dti dti)

unfoldable pub overdraft_factor : ℕ → Factor
unfolding factor
overdraft_factor n =
    if n == 0
    then factor "OVERDRAFT" "Overdraft history" 0 0 20 no_overdraft_history
    else if leb n 2
    then factor "OVERDRAFT" "Overdraft history" n 10 20 (overdraft_events n)
    else factor "OVERDRAFT" "Overdraft history" n 20 20 (frequent_overdrafts n)

unfoldable pub size_factor : ℕ → Factor
unfolding factor
size_factor amount =
    if ltb 5000000 amount
    then factor "LOAN_SIZE" "Loan amount" amount 10 10 large_loan
    else if ltb 2000000 amount
    then factor "LOAN_SIZE" "Loan amount" amount 5 10 moderate_loan
    else factor "LOAN_SIZE" "Loan amount" amount 0 10 modest_loan

abbrev pub approve_max : ℕ
approve_max = 35

abbrev pub decline_min : ℕ
decline_min = 65

pub record RiskResult : Type 0 where
  pub risk_score : ℕ
  pub recommendation : String
  pub reasons : List Note
  pub factors : List Factor

-- `sum(f["points"] for f in factors)`
unfoldable pub total : List Factor → ℕ
total [] = 0
total (f ∷ fs) = f.points + total fs

-- `max(0, min(100, n))`; the points are not negative.
unfoldable pub bounded : ℕ → ℕ
bounded n = if ltb n 100 then n else 100

unfoldable pub recommend : ℕ → String
recommend score =
    if leb score approve_max
    then "APPROVE"
    else if leb decline_min score
    then "DECLINE"
    else "REVIEW"

unfoldable pub factors_of : CreditProfile → ℕ → ℕ → List Factor
factors_of profile amount events =
    credit_factor profile.credit_score
    ∷ dti_factor profile.dti_ratio
    ∷ overdraft_factor events
    ∷ size_factor amount
    ∷ []

unfoldable pub score_risk : CreditProfile → ℕ → ℕ → RiskResult
score_risk profile amount events =
    let factors = factors_of profile amount events in
    let score = bounded (total factors) in
    record {
      risk_score = score;
      recommendation = recommend score;
      reasons = map (λ f. f.note) factors;
      factors = factors;
    }

-- `sorted(..., key=lambda f: -f["points"])`, which is stable: a factor goes before the first one with
-- no more points.
unfoldable pub insert_ranked : Factor → List Factor → List Factor
insert_ranked f [] = f ∷ []
insert_ranked f (g ∷ gs) =
    let rest = insert_ranked f gs in if leb g.points f.points then f ∷ g ∷ gs else g ∷ rest

unfoldable pub ranked : List Factor → List Factor
ranked [] = []
ranked (f ∷ fs) = insert_ranked f (ranked fs)

-- The factors behind `principal_reasons`.
unfoldable pub principal : RiskResult → List Factor
principal r = take 4 (ranked (select (λ f. ltb 0 f.points) r.factors))

-- `f"{f['code']}: {f['note']}"`
unfoldable pub principal_reasons : RiskResult → List (String × Note)
principal_reasons r = map (λ f. (f.code, f.note)) (principal r)

-- ===== src/Loans/Tests.antt =====
-- The theorems about the loan product at concrete loans.
use finchat.Base.{ℕ, ◌≤◌, ◌≡◌, refl, arith, List, [], ◌∷◌, All}
use finchat.Base.{String, Option, none}
use finchat.Base.Dict.{lookup, insert}
use finchat.Loans.Store.{
  empty_store, get_loan, set_status, save_risk, save_profile, create_loan, record_decision,
}
use finchat.Loans.Api.{
  Submission, Decision, Request, submit, decide, notify, run, handle, valid_decision,
  valid_submission,
}
use finchat.Loans.Api.Rows.{upto}
use finchat.Loans.Api.Versions.{IsNumbered, run-IsNumbered, Continues, run-Continues}
use finchat.Loans.Api.Decisions.{IsFollowed}
use finchat.Loans.Api.Status.{run-IsFollowed}
use finchat.Loans.Risk.{CreditProfile, score_risk, total, principal}
use finchat.Loans.Risk.Score.{score_risk-exact, score_risk_mono, IsRecommended}
use finchat.Loans.Risk.Reasons.{principal_exact, IsRanked, Raises}

abbrev strained : CreditProfile
strained = record {
  loan_id = "l1";
  credit_score = 620;
  annual_income = 4000000;
  existing_debt = 1200000;
  dti_ratio = 400;
}

abbrev sound : CreditProfile
sound = record strained { credit_score = 700 }

score_risk-exact_example :
    let r = score_risk strained 1000000 1 in
    (r.risk_score ≡ total r.factors)
    × (r.risk_score ≤ 100)
    × IsRecommended r.risk_score r.recommendation
score_risk-exact_example = score_risk-exact strained 1000000 1

score_risk_mono_example :
    (score_risk sound 1000000 0).risk_score ≤ (score_risk strained 3000000 2).risk_score
score_risk_mono_example =
    score_risk_mono sound strained 1000000 3000000 0 2 (omega arith) (omega arith) (omega arith)
      (omega arith)

principal_exact_example :
    let r = score_risk strained 1000000 1 in
    IsRanked (principal r) × All Raises (principal r) × (total (principal r) ≡ r.risk_score)
principal_exact_example = principal_exact strained 1000000 1

abbrev profile_of : String → ℕ → ℕ → CreditProfile
profile_of loan_id amount term = record sound { loan_id = loan_id }

abbrev no_overdrafts : Option String → ℕ
no_overdrafts account = 0

abbrev application : Submission
application = record {
  customer_name = "Ada";
  amount = 1000000;
  term_months = 36;
  account_id = none;
}

abbrev verdict : String → Decision
verdict decision = record { decision = decision; rationale = "income"; counteroffer_amount = none }

abbrev requests : List Request
requests =
    submit application "l1" 10
    ∷ decide "l1" (verdict "REQUEST_MODIFICATION") "bo" 20
    ∷ decide "l2" (verdict "APPROVE") "bo" 21
    ∷ decide "l1" (verdict "COUNTEROFFER") "bo" 22
    ∷ submit application "l2" 25
    ∷ decide "l1" (verdict "APPROVE") "bo" 30
    ∷ notify "l1" "APPROVE" 31
    ∷ []

run-IsNumbered_example :
    IsNumbered profile_of no_overdrafts (run profile_of no_overdrafts requests empty_store)
unfolding upto
run-IsNumbered_example =
    run-IsNumbered profile_of no_overdrafts requests empty_store (λ id. refl, λ id. refl)

run-Continues_example :
    Continues profile_of no_overdrafts empty_store
      (run profile_of no_overdrafts requests empty_store)
run-Continues_example = run-Continues profile_of no_overdrafts requests empty_store

run-IsFollowed_example : IsFollowed (run profile_of no_overdrafts requests empty_store)
unfolding lookup insert handle valid_decision valid_submission get_loan set_status save_risk
    save_profile create_loan record_decision
run-IsFollowed_example =
    run-IsFollowed profile_of no_overdrafts requests empty_store (refl, (refl, tt))
      (record { each = λ id. refl })

-- ===== src/Loans/Api.antt =====
-- The handlers of products/loans/api/main.py that change the store.
pub mod Rows
pub mod Versions
pub mod Decisions
pub mod Status
use finchat.Base.{
  ℤ, pos, negsuc, ℕ, ◌+◌, String, Bool, true, false, ◌&&◌, not, Option, none, some, List, [], ◌∷◌,
  if◌then◌else◌, str_eq, leb, ltb, member, ◌==◌,
}
use finchat.Loans.Risk.{CreditProfile, RiskResult, score_risk}
use finchat.Loans.Store.{
  LoanStore, View, DecisionRow, create_loan, save_profile, set_status, save_risk, record_decision,
  get_loan, audit, customer_notified,
}

-- The bodies of the requests; an amount that is not positive reads 0.
pub record Submission : Type 0 where
  pub customer_name : String
  pub amount : ℕ
  pub term_months : ℕ
  pub account_id : Option String

pub record Decision : Type 0 where
  pub decision : String
  pub rationale : String
  pub counteroffer_amount : Option ℤ

-- The constraints of `LoanSubmission`.
unfoldable pub valid_submission : Submission → Bool
valid_submission sub =
    not (str_eq sub.customer_name "")
    && (ltb 0 sub.amount && (leb 6 sub.term_months && leb sub.term_months 360))

-- The pattern of `Decision`.
unfoldable pub valid_decision : Decision → Bool
valid_decision d =
    member d.decision ("APPROVE" ∷ "REJECT" ∷ "REQUEST_MODIFICATION" ∷ "COUNTEROFFER" ∷ [])

-- `not decision.counteroffer_amount`
abbrev pub without_amount : Option ℤ → Bool
without_amount none = true
without_amount (some (pos n)) = n == 0
without_amount (some (negsuc n)) = false

pub data Answer : Type 0 where
  refused : ℕ → Answer
  submitted : String → RiskResult → Answer
  decided : DecisionRow → Answer
  notified : String → String → String → Answer

pub data Request : Type 0 where
  -- the loan's id is drawn anew
  submit : Submission → String → ℕ → Request
  decide : String → Decision → String → ℕ → Request
  notify : String → String → ℕ → Request

-- The credit profile that is drawn for a loan, and the overdrafts that the transactions API reports.
module _ (synthesize : String → ℕ → ℕ → CreditProfile) (overdrafts : Option String → ℕ) where
  unfoldable pub assess : Submission → String → RiskResult
  assess sub loan_id =
      score_risk (synthesize loan_id sub.amount sub.term_months) sub.amount
        (overdrafts sub.account_id)

  unfoldable pub submit_loan : Submission → String → ℕ → LoanStore → Answer × LoanStore
  unfolding assess
  submit_loan sub loan_id now s =
      let profile = synthesize loan_id sub.amount sub.term_months in
      let created =
        create_loan loan_id sub.customer_name sub.amount sub.term_months sub.account_id now s in
      let profiled = set_status loan_id "PROFILED" now (
        save_profile loan_id
          (record {
            credit_score = profile.credit_score;
            annual_income = profile.annual_income;
            existing_debt = profile.existing_debt;
            dti_ratio = profile.dti_ratio;
            generated_at = now;
          })
          now created) in
      let result = assess sub loan_id in
      let assessed = save_risk loan_id result (overdrafts sub.account_id) now profiled in
      (submitted loan_id result, set_status loan_id "PENDING_APPROVAL" now assessed)

  -- The handler behind the check that the loan is there.
  unfoldable pub decide_found :
      Option View → String → Decision → String → ℕ → LoanStore → Answer × LoanStore
  decide_found none loan_id d approver now s = (refused 404, s)
  decide_found (some view) loan_id d approver now s =
      if str_eq d.decision "COUNTEROFFER" && without_amount d.counteroffer_amount
      then (refused 400, s)
      else (let (row, s') =
            record_decision loan_id d.decision approver d.rationale d.counteroffer_amount now s in
          (decided row, s'))

  unfoldable pub notify_found : Option View → String → String → ℕ → LoanStore → Answer × LoanStore
  notify_found none loan_id decision now s = (refused 404, s)
  notify_found (some view) loan_id decision now s = (
    notified view.loan.customer_name loan_id decision,
    audit loan_id "notification-agent" (customer_notified view.loan.customer_name decision) now s,
  )

  unfoldable pub handle : Request → LoanStore → Answer × LoanStore
  unfolding decide_found notify_found submit_loan
  handle (submit sub loan_id now) s =
      if valid_submission sub then submit_loan sub loan_id now s else (refused 422, s)
  handle (decide loan_id d approver now) s =
      if valid_decision d
      then decide_found (get_loan loan_id s) loan_id d approver now s
      else (refused 422, s)
  handle (notify loan_id decision now) s = notify_found (get_loan loan_id s) loan_id decision now s

  unfoldable pub run : List Request → LoanStore → LoanStore
  run [] s = s
  run (r ∷ rs) s = run rs (handle r s).1

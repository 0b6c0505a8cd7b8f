-- ===== src/Loans/Store.antt =====
-- `LoanStore` of products/loans/api/store.py with its tables in memory. The ids that are drawn for
-- the rows of profiles, risks, decisions and the audit, which nothing reads, are left out. An
-- operation reads the clock once.
use finchat.Base.{
  ℤ, ℕ, ◌+◌, String, Option, none, some, List, [], ◌∷◌, ◌++◌, count, select, last?, if◌then◌else◌,
  str_eq,
}
use finchat.Base.Dict.{Dict, lookup, insert}
use finchat.Loans.Risk.{RiskResult}

pub record Loan : Type 0 where
  pub customer_name : String
  pub account_id : Option String
  pub amount : ℕ
  pub term_months : ℕ
  pub status : String
  pub submitted_at : ℕ
  pub updated_at : ℕ

pub record ProfileRow : Type 0 where
  pub credit_score : ℕ
  pub annual_income : ℕ
  pub existing_debt : ℕ
  pub dti_ratio : ℕ
  pub generated_at : ℕ

pub record RiskRow : Type 0 where
  pub loan_id : String
  pub version : ℕ
  pub overdraft_events : ℕ
  pub result : RiskResult
  pub created_at : ℕ

pub record DecisionRow : Type 0 where
  pub loan_id : String
  pub version : ℕ
  pub decision : String
  pub counteroffer_amount : Option ℤ
  pub approver : String
  pub rationale : String
  pub decided_at : ℕ

-- What an audit entry says was done, with the numbers and texts of its detail.
pub data Done : Type 0 where
  loan_created : ℕ → ℕ → Done
  status_changed : String → Done
  profile_saved : ℕ → Done
  risk_assessed : ℕ → String → Done
  decision_recorded : String → String → Done
  customer_notified : String → String → Done

pub record AuditRow : Type 0 where
  pub loan_id : String
  pub actor : String
  pub done : Done
  pub event_time : ℕ

pub record LoanStore : Type 0 where
  pub loans : Dict Loan
  pub profiles : Dict ProfileRow
  pub risks : List RiskRow
  pub decisions : List DecisionRow
  pub audit_log : List AuditRow

abbrev pub empty_store : LoanStore
empty_store = record { loans = []; profiles = []; risks = []; decisions = []; audit_log = [] }

unfoldable pub audit : String → String → Done → ℕ → LoanStore → LoanStore
audit loan_id actor done now s = record s {
  audit_log =
      s.audit_log
      ++ record { loan_id = loan_id; actor = actor; done = done; event_time = now } ∷ [];
}

unfoldable pub create_loan : String → String → ℕ → ℕ → Option String → ℕ → LoanStore → LoanStore
unfolding audit
create_loan loan_id customer_name amount term_months account_id now s =
    let row : Loan = record {
      customer_name = customer_name;
      account_id = account_id;
      amount = amount;
      term_months = term_months;
      status = "CREATED";
      submitted_at = now;
      updated_at = now;
    } in
    audit loan_id "loan-api" (loan_created amount term_months) now
      (record s { loans = insert loan_id row s.loans })

unfoldable pub restated : String → ℕ → Option Loan → String → Dict Loan → Dict Loan
restated status now none loan_id loans = loans
restated status now (some loan) loan_id loans =
    insert loan_id (record loan { status = status; updated_at = now }) loans

unfoldable pub set_status : String → String → ℕ → LoanStore → LoanStore
unfolding restated audit
set_status loan_id status now s =
    audit loan_id "loan-api" (status_changed status) now
      (record s { loans = restated status now (lookup loan_id s.loans) loan_id s.loans })

unfoldable pub save_profile : String → ProfileRow → ℕ → LoanStore → LoanStore
unfolding audit
save_profile loan_id row now s =
    audit loan_id "credit-agent" (profile_saved row.credit_score) now
      (record s { profiles = insert loan_id row s.profiles })

unfoldable pub risk_row : String → RiskResult → ℕ → ℕ → LoanStore → RiskRow
risk_row loan_id result events now s = record {
  loan_id = loan_id;
  version = count (λ r. str_eq r.loan_id loan_id) s.risks + 1;
  overdraft_events = events;
  result = result;
  created_at = now;
}

unfoldable pub save_risk : String → RiskResult → ℕ → ℕ → LoanStore → LoanStore
unfolding audit risk_row
save_risk loan_id result events now s =
    audit loan_id "approval-agent" (risk_assessed result.risk_score result.recommendation) now
      (record s { risks = s.risks ++ risk_row loan_id result events now s ∷ [] })

-- The status that a decision leads to.
unfoldable pub status_of : String → String
status_of decision =
    if str_eq decision "APPROVE"
    then "APPROVED"
    else if str_eq decision "REJECT"
    then "REJECTED"
    else if str_eq decision "REQUEST_MODIFICATION"
    then "MODIFIED"
    else if str_eq decision "COUNTEROFFER"
    then "MODIFIED"
    else "PENDING_APPROVAL"

unfoldable pub decision_row :
    String → String → String → String → Option ℤ → ℕ → LoanStore → DecisionRow
decision_row loan_id decision approver rationale counteroffer now s = record {
  loan_id = loan_id;
  version = count (λ d. str_eq d.loan_id loan_id) s.decisions + 1;
  decision = decision;
  counteroffer_amount = counteroffer;
  approver = approver;
  rationale = rationale;
  decided_at = now;
}

unfoldable pub record_decision :
    String → String → String → String → Option ℤ → ℕ → LoanStore → DecisionRow × LoanStore
unfolding audit set_status decision_row
record_decision loan_id decision approver rationale counteroffer now s =
    let row = decision_row loan_id decision approver rationale counteroffer now s in
    (
      row,
      audit loan_id approver (decision_recorded decision rationale) now (
          set_status loan_id (status_of decision) now
            (record s { decisions = s.decisions ++ row ∷ [] })),
    )

-- A loan with its latest risk and its decisions.
pub record View : Type 0 where
  pub loan : Loan
  pub risk : Option RiskRow
  pub decisions : List DecisionRow

abbrev pub decisions_of : String → LoanStore → List DecisionRow
decisions_of loan_id s = select (λ d. str_eq d.loan_id loan_id) s.decisions

abbrev pub risks_of : String → LoanStore → List RiskRow
risks_of loan_id s = select (λ r. str_eq r.loan_id loan_id) s.risks

unfoldable pub get_loan : String → LoanStore → Option View
get_loan loan_id s = elim (lookup loan_id s.loans) [
  | none ↦ none
  | some loan ↦ some (record {
    loan = loan;
    risk = last? (risks_of loan_id s);
    decisions = decisions_of loan_id s;
  })
]

unfoldable pub get_audit : String → LoanStore → List AuditRow
get_audit loan_id s = select (λ a. str_eq a.loan_id loan_id) s.audit_log

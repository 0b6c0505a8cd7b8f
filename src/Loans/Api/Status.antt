-- ===== src/Loans/Api/Status.antt =====
-- The status of a loan follows its decisions.
use finchat.Base.{
  ℕ, ◌≡◌, refl, sym, String, Bool, true, false, ◌&&◌, Option, none, some, List, [], ◌∷◌, str_eq,
  eq_iff, if◌then◌else◌, if-intro, Option-cases, inl, inr,
}
use text.Mathlib.TextPositions.{eq_refl}
use finchat.Base.Dict.{lookup, lookup-insert}
use finchat.Loans.Risk.{CreditProfile, RiskResult}
use finchat.Loans.Store.{
  Loan, LoanStore, ProfileRow, View, decisions_of, audit, create_loan, set_status, save_profile,
  save_risk, get_loan,
}
use finchat.Loans.Api.{
  Answer, Decision, Submission, Request, submit, decide, notify, decide_found, notify_found,
  submit_loan, handle, run, valid_decision, valid_submission, without_amount,
}
use finchat.Loans.Api.Decisions.{
  status_after, Follows, IsFollowed, with_status, set_status-lookup, record_decision-IsFollowed,
}

save_risk-loans :
    (id : String) (result : RiskResult) (events now : ℕ) (s : LoanStore)
    → (save_risk id result events now s).loans ≡ s.loans
unfolding save_risk audit
save_risk-loans id result events now s = refl

save_profile-loans :
    (id : String) (row : ProfileRow) (now : ℕ) (s : LoanStore)
    → (save_profile id row now s).loans ≡ s.loans
unfolding save_profile audit
save_profile-loans id row now s = refl

new_loan : Submission → String → ℕ → Loan
new_loan sub status now = record {
  customer_name = sub.customer_name;
  account_id = sub.account_id;
  amount = sub.amount;
  term_months = sub.term_months;
  status = status;
  submitted_at = now;
  updated_at = now;
}

new_loan_status :
    (sub : Submission) (now : ℕ) → Follows (some (new_loan sub "PENDING_APPROVAL" now)) []
unfolding new_loan status_after
new_loan_status sub now = refl

create_loan-lookup :
    (sub : Submission) (id : String) (now : ℕ) (s : LoanStore) (j : String)
    → lookup j
        (create_loan id sub.customer_name sub.amount sub.term_months sub.account_id now s).loans
      ≡ (if str_eq id j then some (new_loan sub "CREATED" now) else lookup j s.loans)
unfolding create_loan audit new_loan
create_loan-lookup sub id now s j = lookup-insert id j (new_loan sub "CREATED" now) s.loans

module _ (synthesize : String → ℕ → ℕ → CreditProfile) (overdrafts : Option String → ℕ) where
  submit_loan-lookup :
      (sub : Submission) (id : String) (now : ℕ) (s : LoanStore) (j : String)
      → lookup j (submit_loan synthesize overdrafts sub id now s).1.loans
        ≡ (if str_eq id j then some (new_loan sub "PENDING_APPROVAL" now) else lookup j s.loans)
  unfolding submit_loan with_status new_loan
  submit_loan-lookup sub id now s j = go (str_eq id j) refl
    where
      go :
          (b : Bool)
          → str_eq id j ≡ b
          → lookup j (submit_loan synthesize overdrafts sub id now s).1.loans
            ≡ (if b then some (new_loan sub "PENDING_APPROVAL" now) else lookup j s.loans)
      go true e =
          rw
            (
              set_status-lookup,
              save_risk-loans,
              set_status-lookup,
              save_profile-loans,
              create_loan-lookup,
              e,
              eq_refl id,
            )
            refl
      go false e =
          rw
            (
              set_status-lookup, e, save_risk-loans, set_status-lookup, e, save_profile-loans,
              create_loan-lookup, e,
            )
            refl

  submit_loan-decisions :
      (sub : Submission) (id : String) (now : ℕ) (s : LoanStore)
      → (submit_loan synthesize overdrafts sub id now s).1.decisions ≡ s.decisions
  unfolding submit_loan create_loan save_profile save_risk audit set_status
  submit_loan-decisions sub id now s = refl

  submit_loan-IsFollowed :
      (sub : Submission) (id : String) (now : ℕ) (s : LoanStore)
      → lookup id s.loans ≡ none
      → IsFollowed s
      → IsFollowed (submit_loan synthesize overdrafts sub id now s).1
  submit_loan-IsFollowed sub id now s free h = record { each = λ j. go j (str_eq id j) refl }
    where
      own : decisions_of id s ≡ []
      own = rw free at (h.each id)

      go :
          (j : String) (b : Bool)
          → str_eq id j ≡ b
          → Follows
              (lookup j (submit_loan synthesize overdrafts sub id now s).1.loans)
              (decisions_of j (submit_loan synthesize overdrafts sub id now s).1)
      go j true e =
          rw (submit_loan-lookup, submit_loan-decisions, e, sym ((eq_iff id j).0 e), own)
            (new_loan_status sub now)
      go j false e = rw (submit_loan-lookup, submit_loan-decisions, e) (h.each j)

  decide_found-IsFollowed :
      (found : Option View) (id : String) (d : Decision) (approver : String) (now : ℕ)
      (s : LoanStore)
      → get_loan id s ≡ found
      → IsFollowed s
      → IsFollowed (decide_found synthesize overdrafts found id d approver now s).1
  unfolding decide_found get_loan
  decide_found-IsFollowed none id d approver now s e h = h
  decide_found-IsFollowed (some view) id d approver now s e h =
      elim (Option-cases (lookup id s.loans)) [
        | inl nothing ↦ cc (rw (get_loan, nothing) at e)
        | inr (loan, there) ↦
            if-intro (λ (x : Answer × LoanStore). IsFollowed x.1)
              (str_eq d.decision "COUNTEROFFER" && without_amount d.counteroffer_amount) h
              (record_decision-IsFollowed id d approver now s loan there h)
      ]

  notify_found-IsFollowed :
      (found : Option View) (id decision : String) (now : ℕ) (s : LoanStore)
      → IsFollowed s
      → IsFollowed (notify_found synthesize overdrafts found id decision now s).1
  unfolding notify_found audit
  notify_found-IsFollowed none id decision now s h = h
  notify_found-IsFollowed (some view) id decision now s h = record { each = h.each }

  -- Each submission draws an id that no loan has.
  abbrev pub DrawsFresh : List Request → LoanStore → Type 0
  DrawsFresh [] s = Unit
  DrawsFresh (submit sub id now ∷ rs) s =
      (lookup id s.loans ≡ none)
      × DrawsFresh rs (handle synthesize overdrafts (submit sub id now) s).1
  DrawsFresh (r ∷ rs) s = DrawsFresh rs (handle synthesize overdrafts r s).1

  -- The status of every loan follows its decisions: whatever requests are handled, a loan waits for
  -- approval while it has no decision, and afterwards has the status of its last one, and nothing is
  -- decided on a loan that is not there; if it was so before, and each submission draws an id that
  -- no loan has.
  pub run-IsFollowed :
      (requests : List Request) (s : LoanStore)
      → DrawsFresh requests s
      → IsFollowed s
      → IsFollowed (run synthesize overdrafts requests s)
  unfolding run handle
  run-IsFollowed [] s fresh h = h
  run-IsFollowed (submit sub id now ∷ rs) s (free, fresh) h = run-IsFollowed rs _ fresh (
      if-intro (λ (x : Answer × LoanStore). IsFollowed x.1) (valid_submission sub)
        (submit_loan-IsFollowed sub id now s free h) h)
  run-IsFollowed (decide id d approver now ∷ rs) s fresh h = run-IsFollowed rs _ fresh (
      if-intro (λ (x : Answer × LoanStore). IsFollowed x.1) (valid_decision d)
        (decide_found-IsFollowed (get_loan id s) id d approver now s refl h) h)
  run-IsFollowed (notify id decision now ∷ rs) s fresh h =
      run-IsFollowed rs _ fresh (notify_found-IsFollowed (get_loan id s) id decision now s h)

-- ===== src/Loans/Api/Decisions.antt =====
-- What a change of a loan's status and a decision on it do to the loans.
use finchat.Base.{
  ℕ, ◌≡◌, refl, sym, String, Bool, true, false, Option, none, some, List, [], ◌∷◌, ◌++◌, select,
  select-append, append-nil, last?, str_eq, eq_iff, if◌then◌else◌, Bool-cases, inl, inr,
}
use finchat.Base.Dict.{lookup, lookup-insert, Dict}
use finchat.Loans.Store.{
  Loan, LoanStore, DecisionRow, restated, status_of, decisions_of, audit, set_status,
  record_decision, decision_row,
}
use finchat.Loans.Api.{Decision}

unfoldable pub status_after : List DecisionRow → String
status_after ds = elim (last? ds) [ none ↦ "PENDING_APPROVAL" | some d ↦ status_of d.decision ]

-- A loan that is there has the status of its last decision, or waits for the first; one that is not
-- there has no decisions.
abbrev pub Follows : Option Loan → List DecisionRow → Type 0
Follows none ds = ds ≡ []
Follows (some loan) ds = loan.status ≡ status_after ds

pub record IsFollowed (s : LoanStore) : Type 0 where
  pub each : (id : String) → Follows (lookup id s.loans) (decisions_of id s)

unfoldable pub with_status : String → ℕ → Option Loan → Option Loan
with_status status now none = none
with_status status now (some loan) = some (record loan { status = status; updated_at = now })

restated-lookup :
    (status : String) (now : ℕ) (id j : String) (o : Option Loan) (loans : Dict Loan)
    → lookup id loans ≡ o
    → lookup j (restated status now o id loans)
      ≡ (if str_eq id j then with_status status now o else lookup j loans)
unfolding restated with_status
restated-lookup status now id j none loans e = elim (Bool-cases (str_eq id j)) [
  | inl here ↦ rw (here, sym ((eq_iff id j).0 here)) e
  | inr there ↦ rw there refl
]
restated-lookup status now id j (some loan) loans e =
    lookup-insert id j (record loan { status = status; updated_at = now }) loans

pub set_status-lookup :
    (id status : String) (now : ℕ) (s : LoanStore) (j : String)
    → lookup j (set_status id status now s).loans
      ≡ (if str_eq id j then with_status status now (lookup id s.loans) else lookup j s.loans)
unfolding set_status audit
set_status-lookup id status now s j =
    restated-lookup status now id j (lookup id s.loans) s.loans refl

last?-snoc : (xs : List DecisionRow) (x : DecisionRow) → last? (xs ++ x ∷ []) ≡ some x
last?-snoc [] x = refl
last?-snoc (y ∷ []) x = refl
last?-snoc (y ∷ z ∷ zs) x = last?-snoc (z ∷ zs) x

status_after-snoc :
    (ds : List DecisionRow) (d : DecisionRow) → status_after (ds ++ d ∷ []) ≡ status_of d.decision
unfolding status_after
status_after-snoc ds d = rw (status_after, last?-snoc ds d) refl

with_status-Follows :
    (o : Option Loan) (now : ℕ) (ds : List DecisionRow) (d : DecisionRow)
    → (loan : Loan) → o ≡ some loan
    → Follows (with_status (status_of d.decision) now o) (ds ++ d ∷ [])
unfolding with_status
with_status-Follows none now ds d loan e = cc
with_status-Follows (some l) now ds d loan e = sym (status_after-snoc ds d)

decided_row :
    (id : String) (d : Decision) (approver : String) (now : ℕ) (s : LoanStore) → DecisionRow
decided_row id d approver now s =
    decision_row id d.decision approver d.rationale d.counteroffer_amount now s

pub record_decision-IsFollowed :
    (id : String) (d : Decision) (approver : String) (now : ℕ) (s : LoanStore) (loan : Loan)
    → lookup id s.loans ≡ some loan
    → IsFollowed s
    → IsFollowed (record_decision id d.decision approver d.rationale d.counteroffer_amount now s).1
unfolding record_decision audit decision_row
record_decision-IsFollowed id d approver now s loan there h = record {
  each = λ j. go j (str_eq id j) refl;
}
  where
    row : DecisionRow
    row = decision_row id d.decision approver d.rationale d.counteroffer_amount now s

    go :
        (j : String) (b : Bool)
        → str_eq id j ≡ b
        → Follows
            (lookup j
              (set_status id
                (status_of d.decision)
                now
                (record s { decisions = s.decisions ++ row ∷ [] })).loans)
            (select (λ x. str_eq x.loan_id j) (s.decisions ++ row ∷ []))
    go j true e =
        rw
          (
            set_status-lookup id (status_of d.decision) now
                (record s { decisions = s.decisions ++ row ∷ [] }) j,
            select-append (λ (x : DecisionRow). str_eq x.loan_id j) s.decisions (row ∷ []),
            e,
          )
          (with_status-Follows (lookup id s.loans) now _ row loan there)
    go j false e =
        rw
          (
            set_status-lookup id (status_of d.decision) now
                (record s { decisions = s.decisions ++ row ∷ [] }) j,
            select-append (λ (x : DecisionRow). str_eq x.loan_id j) s.decisions (row ∷ []),
            e,
          )
          (rw (append-nil (select (λ (x : DecisionRow). str_eq x.loan_id j) s.decisions))
            (h.each j))

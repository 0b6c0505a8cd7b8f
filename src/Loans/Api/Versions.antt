-- ===== src/Loans/Api/Versions.antt =====
-- The versions of the decisions and the risk assessments of a loan, and what is never overwritten.
use finchat.Base.{ℕ, ◌≡◌, ◌∙◌, sym, String, Option, List, [], ◌∷◌, ◌++◌, append_assoc, append-nil}
use finchat.Loans.Risk.{CreditProfile}
use finchat.Loans.Store.{LoanStore, DecisionRow, RiskRow, AuditRow}
use finchat.Loans.Api.{Request, handle, run}
use finchat.Loans.Api.Rows.{Numbered, Appended-Numbered, Appended-rows, handle-Appends}

module _ (synthesize : String → ℕ → ℕ → CreditProfile) (overdrafts : Option String → ℕ) where
  -- Both tables of a loan are numbered.
  abbrev pub IsNumbered : LoanStore → Type 0
  IsNumbered s =
      Numbered (λ d. d.loan_id) (λ d. d.version) s.decisions
      × Numbered (λ r. r.loan_id) (λ r. r.version) s.risks

  -- Whatever requests are handled, the decisions on each loan keep the versions 1, 2, ..., in the
  -- order in which they were recorded, and so do its risk assessments, if they had them before.
  pub run-IsNumbered :
      (requests : List Request) (s : LoanStore)
      → IsNumbered s
      → IsNumbered (run synthesize overdrafts requests s)
  unfolding run
  run-IsNumbered [] s h = h
  run-IsNumbered (r ∷ requests) s h =
      let step = handle-Appends synthesize overdrafts r s in
      run-IsNumbered requests _ (
        Appended-Numbered (λ d. d.loan_id) (λ d. d.version) _ _ step.decisions h.0,
        Appended-Numbered (λ x. x.loan_id) (λ x. x.version) _ _ step.risks h.1,
      )

  -- Nothing that was recorded is overwritten.
  abbrev pub Continues : LoanStore → LoanStore → Type 0
  Continues s s' =
      ((rows : List DecisionRow) × (s'.decisions ≡ s.decisions ++ rows))
      × ((rows : List RiskRow) × (s'.risks ≡ s.risks ++ rows))
      × ((rows : List AuditRow) × (s'.audit_log ≡ s.audit_log ++ rows))

  -- Whatever requests are handled, the decisions, the risk assessments and the audit log that were
  -- there stay in front, unchanged, and only new rows follow them.
  pub run-Continues :
      (requests : List Request) (s : LoanStore) → Continues s (run synthesize overdrafts requests s)
  unfolding run
  run-Continues [] s = (
    ([], sym (append-nil s.decisions)),
    ([], sym (append-nil s.risks)),
    ([], sym (append-nil s.audit_log)),
  )
  run-Continues (r ∷ requests) s =
      let step = handle-Appends synthesize overdrafts r s in
      let rest = run-Continues requests (handle synthesize overdrafts r s).1 in
      let (a, ae) = Appended-rows (λ d. d.loan_id) (λ d. d.version) _ _ step.decisions in
      let (b, be) = Appended-rows (λ x. x.loan_id) (λ x. x.version) _ _ step.risks in
      (
        (a ++ rest.0.0, rest.0.1 ∙ rw ae (append_assoc s.decisions a rest.0.0)),
        (b ++ rest.1.0, rest.1.1 ∙ rw be (append_assoc s.risks b rest.1.0)),
        (
          step.audit_log.rest ++ rest.2.0,
          rest.2.1
              ∙ rw (step.audit_log.split) (append_assoc s.audit_log step.audit_log.rest rest.2.0),
        ),
      )

-- ===== src/Loans/Api/Rows.antt =====
-- What one request may do to the tables that are only appended to.
use finchat.Base.{
  ℤ, ℕ, zero, suc, ◌+◌, ◌≡◌, refl, ◌∙◌, sym, String, Bool, ◌&&◌, Option, none, some, List, [], ◌∷◌,
  ◌++◌, map, arith, count, select, select-append, length, length-append, str_eq, eq_iff, if-intro,
  Bool-cases, inl, inr, append_assoc, append-nil,
}
use finchat.Loans.Risk.{CreditProfile, RiskResult}
use finchat.Loans.Store.{
  LoanStore, AuditRow, View, ProfileRow, Done, status_of, decision_recorded, audit, create_loan,
  set_status, save_profile, save_risk, record_decision, decision_row, risk_row, get_loan,
}
use finchat.Loans.Api.{
  Answer, Decision, Submission, Request, submit, decide, notify, decide_found, notify_found,
  submit_loan, assess, handle, valid_decision, valid_submission, without_amount,
}

-- 1, 2, ..., n
unfoldable pub upto : ℕ → List ℕ
upto zero = []
upto (suc n) = upto n ++ suc n ∷ []

upto_next : (n : ℕ) → upto (n + 1) ≡ upto n ++ (n + 1) ∷ []
unfolding upto
upto_next n = go (n + 1) (omega arith)
  where
    go : (m : ℕ) → m ≡ suc n → upto m ≡ upto n ++ m ∷ []
    go m e = rw e refl

-- What a step may do to a table: nothing, or append one row with the next version of its loan.
pub data Appended {A : Type 0} (key : A → String) (version : A → ℕ) (xs ys : List A) : Type 0 where
  same : ys ≡ xs → Appended key version xs ys
  grown :
      (x : A)
      → version x ≡ count (λ y. str_eq (key y) (key x)) xs + 1
      → ys ≡ xs ++ x ∷ []
      → Appended key version xs ys

module _ {A : Type 0} (key : A → String) (version : A → ℕ) where
  -- Each loan's rows have the versions 1, 2, ... in their order.
  abbrev pub Numbered : List A → Type 0
  Numbered xs =
      (id : String)
      → let own = select (λ x. str_eq (key x) id) xs in map version own ≡ upto (length own)

  count-select : (p : A → Bool) (xs : List A) → length (select p xs) ≡ count p xs
  count-select p [] = refl
  count-select p (x ∷ xs) = ground (arith, count-select p xs)

  map-append : (xs ys : List A) → map version (xs ++ ys) ≡ map version xs ++ map version ys
  map-append [] ys = refl
  map-append (x ∷ xs) ys = rw (map-append xs ys) refl

  pub Appended-Numbered : (xs ys : List A) → Appended key version xs ys → Numbered xs → Numbered ys
  Appended-Numbered xs ys (same e) h id = rw e (h id)
  Appended-Numbered xs ys (grown x next e) h id = elim (Bool-cases (str_eq (key x) id)) [
    | inl own ↦
        let path = (eq_iff (key x) id).0 own in
        let p : A → Bool = λ y. str_eq (key y) id in
        let counted : count (λ y. str_eq (key y) (key x)) xs + 1 ≡ length (select p xs) + 1 =
          rw (path, count-select p xs) refl in
        let number : version x ≡ length (select p xs) + 1 = next ∙ counted in
        rw (e, select-append p xs (x ∷ []), own)
          (rw
            (map-append (select p xs) (x ∷ []), h id, length-append (select p xs) (x ∷ []), number)
            (sym (upto_next (length (select p xs)))))
    | inr other ↦
        let p : A → Bool = λ y. str_eq (key y) id in
        rw (e, select-append p xs (x ∷ []), other) (rw (append-nil (select p xs)) (h id))
  ]

  pub Appended-rows :
      (xs ys : List A) → Appended key version xs ys → (rows : List A) × (ys ≡ xs ++ rows)
  Appended-rows xs ys (same e) = ([], e ∙ sym (append-nil xs))
  Appended-rows xs ys (grown x next e) = (x ∷ [], e)

-- The second log continues the first.
pub record Extends (before after : List AuditRow) : Type 0 where
  pub rest : List AuditRow
  pub split : after ≡ before ++ rest

-- What a step may do to the tables that are only appended to.
pub record Appends (s s' : LoanStore) : Type 0 where
  pub decisions : Appended (λ d. d.loan_id) (λ d. d.version) s.decisions s'.decisions
  pub risks : Appended (λ r. r.loan_id) (λ r. r.version) s.risks s'.risks
  pub audit_log : Extends s.audit_log s'.audit_log

idle_log : (log : List AuditRow) → Extends log log
idle_log log = record { rest = []; split = sym (append-nil log) }

idle : (s : LoanStore) → Appends s s
idle s = record { decisions = same refl; risks = same refl; audit_log = idle_log s.audit_log }

audit_same :
    (loan_id actor : String) (done : Done) (now : ℕ) (s : LoanStore)
    → ((audit loan_id actor done now s).decisions ≡ s.decisions)
      × ((audit loan_id actor done now s).risks ≡ s.risks)
unfolding audit
audit_same loan_id actor done now s = (refl, refl)

module _ (log : List AuditRow) where
  audit-Extends :
      (loan_id actor : String) (done : Done) (now : ℕ) (s : LoanStore)
      → Extends log s.audit_log
      → Extends log (audit loan_id actor done now s).audit_log
  unfolding audit
  audit-Extends loan_id actor done now s h = record {
    rest =
        h.rest ++ record { loan_id = loan_id; actor = actor; done = done; event_time = now } ∷ [];
    split = rw (h.split) (append_assoc log h.rest _);
  }

  create_loan-Extends :
      (loan_id customer_name : String) (amount term_months : ℕ) (account_id : Option String)
      (now : ℕ) (s : LoanStore)
      → Extends log s.audit_log
      → Extends log
          (create_loan loan_id customer_name amount term_months account_id now s).audit_log
  unfolding create_loan audit
  create_loan-Extends loan_id customer_name amount term_months account_id now s h =
      audit-Extends loan_id _ _ now s h

  set_status-Extends :
      (loan_id status : String) (now : ℕ) (s : LoanStore)
      → Extends log s.audit_log
      → Extends log (set_status loan_id status now s).audit_log
  unfolding set_status audit
  set_status-Extends loan_id status now s h = audit-Extends loan_id _ _ now s h

  save_profile-Extends :
      (loan_id : String) (row : ProfileRow) (now : ℕ) (s : LoanStore)
      → Extends log s.audit_log
      → Extends log (save_profile loan_id row now s).audit_log
  unfolding save_profile audit
  save_profile-Extends loan_id row now s h = audit-Extends loan_id _ _ now s h

  save_risk-Extends :
      (loan_id : String) (result : RiskResult) (events now : ℕ) (s : LoanStore)
      → Extends log s.audit_log
      → Extends log (save_risk loan_id result events now s).audit_log
  unfolding save_risk audit
  save_risk-Extends loan_id result events now s h = audit-Extends loan_id _ _ now s h

  record_decision-Extends :
      (loan_id decision approver rationale : String) (counteroffer : Option ℤ) (now : ℕ)
      (s : LoanStore)
      → Extends log s.audit_log
      → Extends log
          (record_decision loan_id decision approver rationale counteroffer now s).1.audit_log
  unfolding record_decision audit set_status
  record_decision-Extends loan_id decision approver rationale counteroffer now s h =
      audit-Extends loan_id approver (decision_recorded decision rationale) now
        (set_status loan_id (status_of decision) now s) (set_status-Extends loan_id _ now s h)

module _ (synthesize : String → ℕ → ℕ → CreditProfile) (overdrafts : Option String → ℕ) where
  submit_loan-Extends :
      (sub : Submission) (loan_id : String) (now : ℕ) (s : LoanStore)
      → Extends s.audit_log (submit_loan synthesize overdrafts sub loan_id now s).1.audit_log
  unfolding submit_loan
  submit_loan-Extends sub loan_id now s =
      let log = s.audit_log in
      set_status-Extends log loan_id _ now _ (
        save_risk-Extends log loan_id _ _ now _ (
          set_status-Extends log loan_id _ now _ (
            save_profile-Extends log loan_id _ now _
              (create_loan-Extends log loan_id _ _ _ _ now s (idle_log log)))))

  submit_loan-Appends :
      (sub : Submission) (loan_id : String) (now : ℕ) (s : LoanStore)
      → Appends s (submit_loan synthesize overdrafts sub loan_id now s).1
  unfolding submit_loan create_loan set_status save_profile save_risk audit risk_row
  submit_loan-Appends sub loan_id now s = record {
    decisions = same refl;
    risks =
        grown
          (risk_row loan_id (assess synthesize overdrafts sub loan_id) (overdrafts sub.account_id)
            now s)
          refl refl;
    audit_log = submit_loan-Extends sub loan_id now s;
  }

  record_decision-Appends :
      (loan_id : String) (d : Decision) (approver : String) (now : ℕ) (s : LoanStore)
      → Appends s
          (record_decision loan_id d.decision approver d.rationale d.counteroffer_amount now s).1
  unfolding record_decision decision_row set_status audit
  record_decision-Appends loan_id d approver now s = record {
    decisions =
        grown (decision_row loan_id d.decision approver d.rationale d.counteroffer_amount now s)
          refl refl;
    risks = same refl;
    audit_log =
        record_decision-Extends s.audit_log loan_id d.decision approver d.rationale
          d.counteroffer_amount now s (idle_log s.audit_log);
  }

  decide_found-Appends :
      (found : Option View) (loan_id : String) (d : Decision) (approver : String) (now : ℕ)
      (s : LoanStore)
      → Appends s (decide_found synthesize overdrafts found loan_id d approver now s).1
  unfolding decide_found
  decide_found-Appends none loan_id d approver now s = idle s
  decide_found-Appends (some view) loan_id d approver now s =
      elim (Bool-cases (str_eq d.decision "COUNTEROFFER" && without_amount d.counteroffer_amount)) [
        | inl bad ↦ rw bad (idle s)
        | inr good ↦ rw good (record_decision-Appends loan_id d approver now s)
      ]

  notify_found-Appends :
      (found : Option View) (loan_id decision : String) (now : ℕ) (s : LoanStore)
      → Appends s (notify_found synthesize overdrafts found loan_id decision now s).1
  unfolding notify_found
  notify_found-Appends none loan_id decision now s = idle s
  notify_found-Appends (some view) loan_id decision now s = record {
    decisions = same (audit_same loan_id _ _ now s).0;
    risks = same (audit_same loan_id _ _ now s).1;
    audit_log = audit-Extends s.audit_log loan_id _ _ now s (idle_log s.audit_log);
  }

  pub handle-Appends :
      (r : Request) (s : LoanStore) → Appends s (handle synthesize overdrafts r s).1
  unfolding handle
  handle-Appends (submit sub loan_id now) s =
      if-intro (λ (x : Answer × LoanStore). Appends s x.1) (valid_submission sub)
        (submit_loan-Appends sub loan_id now s) (idle s)
  handle-Appends (decide loan_id d approver now) s =
      if-intro (λ (x : Answer × LoanStore). Appends s x.1) (valid_decision d)
        (decide_found-Appends (get_loan loan_id s) loan_id d approver now s) (idle s)
  handle-Appends (notify loan_id decision now) s =
      notify_found-Appends (get_loan loan_id s) loan_id decision now s

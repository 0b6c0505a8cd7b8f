-- ===== src/Process/Overview/Action.antt =====
-- What a customer is told to do next, and what a view lacks.
use finchat.Base.{
  ℕ, ◌≡◌, ◌≢◌, refl, ◌⊎◌, inl, inr, String, Bool, true, false, Option, none, some, List, [], ◌∷◌,
  select, any, Bool-cases,
}
use finchat.Process.Overview.{
  Balance, at_least_zero, negative, LoanEntry, is_pending, is_decided, by_balance, by_decided,
  by_pending, decide_next_action,
}

-- What the kind of an action says about the loans and the balance.
abbrev pub IsReason : Option Balance → List LoanEntry → String → Type 0
IsReason balance loans kind =
    ((kind ≡ "await_loan_decision") × (any is_pending loans ≡ true))
    ⊎ (((kind ≡ "review_loan_decision")
          × (any is_pending loans ≡ false)
          × (any is_decided loans ≡ true))
        ⊎ ((any is_pending loans ≡ false)
            × (any is_decided loans ≡ false)
            × (((kind ≡ "cover_overdraft") × ((n : ℕ) × (balance ≡ some (negative n))))
                ⊎ ((kind ≡ "none") × ((n : ℕ) → balance ≢ some (negative n))))))

any-select :
    (p : LoanEntry → Bool) (loans : List LoanEntry) → select p loans ≡ [] → any p loans ≡ false
any-select p [] e = refl
any-select p (l ∷ loans) e = elim (Bool-cases (p l)) [
  | inl holds ↦ cc (rw holds at e)
  | inr fails ↦ rw fails (any-select p loans (rw fails at e))
]

any-select_cons :
    (p : LoanEntry → Bool) (loans : List LoanEntry) (x : LoanEntry) (xs : List LoanEntry)
    → select p loans ≡ x ∷ xs
    → any p loans ≡ true
any-select_cons p [] x xs e = cc
any-select_cons p (l ∷ loans) x xs e = elim (Bool-cases (p l)) [
  | inl holds ↦ rw holds refl
  | inr fails ↦ rw fails (any-select_cons p loans x xs (rw fails at e))
]

by_balance-kind :
    (balance : Option Balance) (recent : List String)
    → (((by_balance balance recent).kind ≡ "cover_overdraft")
        × ((n : ℕ) × (balance ≡ some (negative n))))
      ⊎ (((by_balance balance recent).kind ≡ "none") × ((n : ℕ) → balance ≢ some (negative n)))
unfolding by_balance
by_balance-kind none recent = inr (refl, λ n e. cc)
by_balance-kind (some (negative n)) recent = inl (refl, (n, refl))
by_balance-kind (some (at_least_zero n)) [] = inr (refl, λ m e. cc)
by_balance-kind (some (at_least_zero n)) (r ∷ recent) = inr (refl, λ m e. cc)

-- A customer is told to wait if a loan is pending, to review a decision if none is pending and one is
-- decided, and to cover an overdraft only if neither is so and the balance is known and negative; a
-- balance that is masked is never taken for one.
pub decide_next_action-IsReason :
    (balance : Option Balance) (loans : List LoanEntry) (recent : List String)
    → IsReason balance loans (decide_next_action balance loans recent).kind
unfolding decide_next_action by_pending by_decided
decide_next_action-IsReason balance loans recent =
    go (select is_pending loans) (select is_decided loans) refl refl
  where
    go :
        (pending decided : List LoanEntry)
        → select is_pending loans ≡ pending
        → select is_decided loans ≡ decided
        → IsReason balance loans (by_pending pending decided balance recent).kind
    go (l ∷ pending) decided e f = inl (refl, any-select_cons is_pending loans l pending e)
    go [] (l ∷ decided) e f =
        inr
          (inl (refl, any-select is_pending loans e, any-select_cons is_decided loans l decided f))
    go [] [] e f = inr (
        inr (
          any-select is_pending loans e,
          any-select is_decided loans f,
          by_balance-kind balance recent,
        ))

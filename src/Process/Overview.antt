-- ===== src/Process/Overview.antt =====
-- products/process/api/overview.py: the next action of a customer, and the view that is composed from
-- sources which may fail.
pub mod Action
use finchat.Base.{
  ℕ, String, Bool, true, false, ◌||◌, Option, none, some, List, [], ◌∷◌, ◌++◌, str_eq, select,
  nonempty,
}

pub data Balance : Type 0 where
  at_least_zero : ℕ → Balance
  negative : ℕ → Balance

pub record LoanEntry : Type 0 where
  pub loan_id : String
  pub status : String

-- The sentence that an action gives for a reason.
pub data Why : Type 0 where
  loan_pending : String → Why
  loan_decided : String → Why
  balance_masked : Why
  below_zero : ℕ → Why
  no_activity : Why
  all_well : Why

pub record NextAction : Type 0 where
  pub kind : String
  pub why : Why

abbrev pub is_pending : LoanEntry → Bool
is_pending l = str_eq l.status "PENDING_APPROVAL"

abbrev pub is_decided : LoanEntry → Bool
is_decided l = str_eq l.status "APPROVED" || str_eq l.status "REJECTED"

-- The part behind the loans.
unfoldable pub by_balance : Option Balance → List String → NextAction
by_balance none recent = record { kind = "none"; why = balance_masked }
by_balance (some (negative n)) recent = record { kind = "cover_overdraft"; why = below_zero n }
by_balance (some (at_least_zero n)) [] = record { kind = "none"; why = no_activity }
by_balance (some (at_least_zero n)) (r ∷ recent) = record { kind = "none"; why = all_well }

unfoldable pub by_decided : List LoanEntry → Option Balance → List String → NextAction
unfolding by_balance
by_decided [] balance recent = by_balance balance recent
by_decided (l ∷ decided) balance recent = record {
  kind = "review_loan_decision";
  why = loan_decided l.loan_id;
}

unfoldable pub by_pending :
    List LoanEntry → List LoanEntry → Option Balance → List String → NextAction
unfolding by_decided
by_pending [] decided balance recent = by_decided decided balance recent
by_pending (l ∷ pending) decided balance recent = record {
  kind = "await_loan_decision";
  why = loan_pending l.loan_id;
}

unfoldable pub decide_next_action : Option Balance → List LoanEntry → List String → NextAction
unfolding by_pending
decide_next_action balance loans recent =
    by_pending (select is_pending loans) (select is_decided loans) balance recent

-- What a source answers.
pub data Answer (A : Type 0) : Type 0 where
  not_found : Answer A
  unavailable : Answer A
  found : A → Answer A

pub record Overview : Type 0 where
  pub balance : Option Balance
  pub recent_activity : List String
  pub loans : List LoanEntry
  pub next_action : NextAction
  pub partial : List String

unfoldable pub or_none : {A : Type 0} → Option (List A) → List A
or_none none = []
or_none (some xs) = xs

abbrev pub missing : {A : Type 0} → String → Option (List A) → List String
missing name none = name ∷ []
missing name (some xs) = []

-- The balance's errors are passed on; the other sources answer or are not available.
unfoldable pub build_overview :
    Answer (Option Balance) → Option (List String) → Option (List LoanEntry) → Answer Overview
unfolding or_none decide_next_action
build_overview not_found recent loans = not_found
build_overview unavailable recent loans = unavailable
build_overview (found balance) recent loans = found (record {
  balance = balance;
  recent_activity = or_none recent;
  loans = or_none loans;
  next_action = decide_next_action balance (or_none loans) (or_none recent);
  partial = missing "recent_activity" recent ++ missing "loans" loans;
})

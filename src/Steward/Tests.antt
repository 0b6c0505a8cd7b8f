-- ===== src/Steward/Tests.antt =====
-- The steward at a concrete run.
use finchat.Base.{
  pos, ℕ, zero, suc, ◌≡◌, refl, Bool, true, none, List, [], ◌∷◌, ◌++◌, map, count, length,
}
use finchat.Steward.{Finding, plan, Decision, Entry}
use finchat.Steward.Ranked.{IsRanked}
use finchat.Steward.Run.{Meets, first, steward_run}
use finchat.Steward.Run.Reviewed.{taken, sent, OrdersFor, steward_run_reviewed}

abbrev amounts : Finding
amounts = record {
  id = "txn#0";
  scan = "txn";
  label = "amount";
  dimension = "VALIDITY";
  column = "amount";
  evaluated = 1000;
  passed_count = 987;
}

abbrev accounts : Finding
accounts = record {
  id = "txn#1";
  scan = "txn";
  label = "account";
  dimension = "COMPLETENESS";
  column = "";
  evaluated = 1000;
  passed_count = 900;
}

abbrev findings : List Finding
findings = amounts ∷ accounts ∷ []

abbrev approval : Decision
approval = record { approved = true; approver = "a@example.org"; note = "" }

-- The review of the first step is sent twice.
abbrev twice : ℕ → Meets
twice i = elim i [
  | zero ↦ record { answer = none; reviews = approval ∷ approval ∷ [] }
  | suc n ↦ record { answer = none; reviews = [] }
]

steward_run_reviewed_example :
    let planned = first (pos 8) (plan findings) in
    let s = steward_run (pos 8) findings twice in
    IsRanked (plan findings)
    × ((p : Finding → Bool) → count p (plan findings) ≡ count p findings)
    × (map (λ (e : Entry). e.task) s.history ≡ map (λ (f : Finding). f.label) planned)
    × (taken s.history ++ s.mailbox ≡ sent twice 0 planned)
    × OrdersFor planned s.history s.orders
steward_run_reviewed_example = steward_run_reviewed (pos 8) findings twice

-- The second review approves the finding that nobody was shown yet.
second_review_applies : length (steward_run (pos 8) findings twice).orders ≡ 2
unfolding steward_run
second_review_applies = refl

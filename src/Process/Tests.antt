-- ===== src/Process/Tests.antt =====
-- The theorems about the process API at concrete questions and customers.
use finchat.Base.{◌≡◌, refl, String, some, List, [], ◌∷◌}
use finchat.Process.Routing.{
  Reply, raised, text, classify, heuristic_intent, scores, contains, starts_with, named_mode,
  parse_intent,
}
use finchat.Process.Routing.Chosen.{IsBest, heuristic_intent-IsBest, classify_first}
use finchat.Process.Overview.{LoanEntry, negative, decide_next_action}
use finchat.Process.Overview.Action.{IsReason, decide_next_action-IsReason}

abbrev id : String → String
id s = s

heuristic_intent-IsBest_example :
    IsBest
      (scores "how many customers have a fee")
      (heuristic_intent id id id "how many customers have a fee")
heuristic_intent-IsBest_example = heuristic_intent-IsBest id id id "how many customers have a fee"

abbrev broken : String → Reply
broken prompt = raised

abbrev model : String → Reply
model prompt = text (some "SEMANTICS")

classify_first_example :
    (classify id id id "what is a dim_account" (broken ∷ model ∷ broken ∷ []) ≡ "semantics")
    × (classify id id id "what is a dim_account" (broken ∷ [])
        ≡ heuristic_intent id id id "what is a dim_account")
unfolding named_mode parse_intent contains starts_with
classify_first_example =
    classify_first id id id "what is a dim_account" (broken ∷ []) (broken ∷ []) model "semantics"
      (refl, tt) refl

abbrev settled : List LoanEntry
settled = record { loan_id = "l1"; status = "MODIFIED" } ∷ []

decide_next_action-IsReason_example :
    IsReason
      (some (negative 500))
      settled
      (decide_next_action (some (negative 500)) settled []).kind
decide_next_action-IsReason_example = decide_next_action-IsReason (some (negative 500)) settled []

-- ===== src/Safety/Screen.antt =====
-- The screening of a turn in ui/server.py: `_safety_fold_concurrent` and `_safety_screen`, over the
-- entries that the lease drained and the verdict that the classifier gave.
pub mod Outcome
pub mod Recorded
use finchat.Base.{
  ℕ, String, Bool, true, false, ◌&&◌, Option, none, some, List, [], ◌∷◌, ◌++◌, if◌then◌else◌,
}
use finchat.Safety.Signals.{Thresholds, TurnSignals, concurrent_turn}
use finchat.Safety.State.{
  Action, Decision, SessionState, Reason, no_action, handoff_crisis, handoff_fraud, quarantine,
  withhold, advance,
}
use finchat.Safety.Evaluate.{evaluate}

-- What was recorded so far, oldest first, and the state that it led to.
pub record Trail : Type 0 where
  pub state : SessionState
  pub log : List (TurnSignals × Decision)

-- `_safety_record(...)`, then `state.advance(turn, decision)`.
unfoldable pub record_turn : Thresholds → TurnSignals → Decision → Trail → Trail
record_turn t turn d trail = record {
  state = advance t turn d trail.state;
  log = trail.log ++ (turn, d) ∷ [];
}

-- The pending entries hold the time at which each turn was turned away, where it could be read.
unfoldable pub fold_concurrent : Thresholds → ℕ → List (Option ℕ) → Trail → Trail
fold_concurrent t now [] trail = trail
fold_concurrent t now (ts ∷ pending) trail =
    let turn = concurrent_turn ts now in
    fold_concurrent t now pending (record_turn t turn (evaluate t turn trail.state) trail)

-- Model Armor has decided (with its class), or the classifier is asked: `none` where `classify`
-- raises, as it does for a message or an answer that is no text (the JSON of either may be anything).
pub data Source : Type 0 where
  armor : Option String → Source
  classifier : Option TurnSignals → Source

unfoldable pub blank_turn : Bool → Option String → ℕ → TurnSignals
blank_turn blocked cls now = record {
  signals = [];
  agent_refused = false;
  armor_blocked = blocked;
  armor_class = cls;
  classifier_error = false;
  ts = some now;
}

-- The turn that is judged. A locked session is not classified.
unfoldable pub observed : Source → Bool → ℕ → Option TurnSignals
unfolding blank_turn
observed (armor cls) locked now = some (blank_turn true cls now)
observed (classifier found) locked now = if locked then some (blank_turn false none now) else found

abbrev pub idle : Action → Bool
idle no_action = true
idle _ = false

-- `if turn.classifier_error and fail_closed() and decision.action == "none": ...`
unfoldable pub fail_closed : Bool → TurnSignals → Decision → Decision
fail_closed closed turn d =
    if turn.classifier_error && (closed && idle d.action)
    then record d {
      action = withhold;
      reasons = d.reasons ++ Reason.classifier_unavailable_fail_closed ∷ [];
    }
    else d

-- `if decision.action != "none": return {...}`: the action that replaces the answer.
abbrev pub override : Action → Option Action
override no_action = none
override a = some a

-- From `decision = ss.evaluate(turn, state)` on. Where `classify` raised, `except Exception` gives
-- None, and neither the turn nor what was drained behind it is recorded.
unfoldable pub judged :
    Thresholds → Bool → ℕ → List (Option ℕ) → Option TurnSignals → Trail → Option Action × Trail
unfolding fail_closed record_turn fold_concurrent
judged t closed now after none counted = (none, counted)
judged t closed now after (some turn) counted =
    let d = fail_closed closed turn (evaluate t turn counted.state) in
    (override d.action, fold_concurrent t now after (record_turn t turn d counted))

-- `before` was drained ahead of the decision, `after` behind it.
unfoldable pub screen :
    Thresholds
    → Bool
    → ℕ
    → List (Option ℕ)
    → List (Option ℕ)
    → Source
    → Trail
    → Option Action × Trail
unfolding observed judged fold_concurrent
screen t closed now before after source trail =
    let counted = fold_concurrent t now before trail in
    judged t closed now after (observed source counted.state.quarantined now) counted

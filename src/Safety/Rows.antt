-- ===== src/Safety/Rows.antt =====
-- The evidence row of a turn and the state that is rebuilt from a session's rows
-- (`evidence_row` and `state_from_rows` of ui/safety_signals.py). The JSON of the `signals` column
-- and the ISO text of `ts` are read as what they encode.
pub mod Rebuild
use finchat.Base.{
  ℕ, ◌+◌, ◌*◌, ◌/◌, ◌%◌, String, Bool, Option, none, some, List, [], ◌∷◌, if◌then◌else◌, leb, ltb,
  ◌==◌,
}
use finchat.Base.Dict.{Dict, get_or}
use finchat.Safety.Signals.{Thresholds, TurnSignals}
use finchat.Safety.State.{Action, Decision, SessionState, Reason, info, fresh, advance}

-- `round(v, 3)`, half to even, on millionths.
unfoldable pub round3 : ℕ → ℕ
round3 v =
    if ltb (v % 1000) 500
    then v / 1000 * 1000
    else if ltb 500 (v % 1000)
    then (v / 1000 + 1) * 1000
    else if v / 1000 % 2 == 0
    then v / 1000 * 1000
    else (v / 1000 + 1) * 1000

-- `{k: round(v, 3) for k, v in signals.items() if v >= med}`
unfoldable pub stored_signals : ℕ → Dict ℕ → Dict ℕ
stored_signals med [] = []
stored_signals med ((k, v) ∷ d) =
    let rest = stored_signals med d in if leb med v then (k, round3 v) ∷ rest else rest

-- `max(signals.items(), key=..., default=(None, 0.0))`, the first of the largest.
top_from : Option String × ℕ → Dict ℕ → Option String × ℕ
top_from best [] = best
top_from best ((k, v) ∷ d) = top_from (if ltb best.1 v then (some k, v) else best) d

top_entry : Dict ℕ → Option String × ℕ
unfolding top_from
top_entry [] = (none, 0)
top_entry ((k, v) ∷ d) = top_from (some k, v) d

pub record Row : Type 0 where
  pub conversation_id : String
  pub ts : ℕ
  pub session_key : String
  pub principal_hash : String
  pub turn_index : ℕ
  pub armor_blocked : Bool
  pub armor_class : Option String
  pub agent_refused : Bool
  pub signals : Dict ℕ
  pub top_signal : Option String
  pub top_confidence : Option ℕ
  pub signal_class : Option String
  pub tier : ℕ
  pub action : Action
  pub reasons : List Reason
  pub classifier_error : Bool

-- What the caller knows of the turn besides its signals.
pub record Origin : Type 0 where
  pub conversation_id : String
  pub session_key : String
  pub principal_hash : String
  pub turn_index : ℕ
  -- the reading of the clock, for a turn with no time of its own
  pub now : ℕ

unfoldable pub evidence_row : Thresholds → Origin → TurnSignals → Decision → Row
unfolding stored_signals top_entry
evidence_row t o turn d =
    let top = top_entry turn.signals in
    record {
      conversation_id = o.conversation_id;
      ts = get_or o.now turn.ts;
      session_key = o.session_key;
      principal_hash = o.principal_hash;
      turn_index = o.turn_index;
      armor_blocked = turn.armor_blocked;
      armor_class = turn.armor_class;
      agent_refused = turn.agent_refused;
      signals = stored_signals t.med turn.signals;
      top_signal = if leb t.med top.1 then top.0 else none;
      top_confidence = if leb t.med top.1 then some (round3 top.1) else none;
      signal_class = d.cls;
      tier = d.tier;
      action = d.action;
      reasons = d.reasons;
      classifier_error = turn.classifier_error;
    }

-- The turn and the decision that a row is read as.
unfoldable pub turn_of_row : Row → TurnSignals
turn_of_row r = record {
  signals = r.signals;
  agent_refused = r.agent_refused;
  armor_blocked = r.armor_blocked;
  armor_class = r.armor_class;
  classifier_error = Bool.false;
  ts = some r.ts;
}

unfoldable pub decision_of_row : Row → Decision
decision_of_row r = record {
  tier = r.tier;
  action = r.action;
  cls = none;
  reasons = [];
  filters = [];
  severity = info;
}

unfoldable pub fold_rows : Thresholds → List Row → SessionState → SessionState
fold_rows t [] s = s
fold_rows t (r ∷ rows) s = fold_rows t rows (advance t (turn_of_row r) (decision_of_row r) s)

-- `principal_counts`: the sessions flagged and the security hits, when they were read.
unfoldable pub with_principal : Option (ℕ × ℕ) → SessionState → SessionState
with_principal none s = s
with_principal (some (sessions, hits)) s = record s {
  principal_sessions_flagged = sessions;
  principal_security_hits = hits;
}

unfoldable pub state_from_rows : Thresholds → List Row → Option (ℕ × ℕ) → SessionState
unfolding fold_rows with_principal turn_of_row decision_of_row
state_from_rows t rows counts = with_principal counts (fold_rows t rows fresh)

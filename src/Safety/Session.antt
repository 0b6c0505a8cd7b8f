-- ===== src/Safety/Session.antt =====
-- A session as the server plays it: each turn is decided in the state before it and then folded
-- in (`decision = evaluate(turn, state)`, `state.advance(turn, decision)`).
pub mod Lock
pub mod Decisions
pub mod Counters
use finchat.Base.{List, [], ◌∷◌}
use finchat.Safety.Signals.{Thresholds, TurnSignals}
use finchat.Safety.State.{Decision, SessionState, advance}
use finchat.Safety.Evaluate.{evaluate}

unfoldable pub play_turn : Thresholds → TurnSignals → SessionState → SessionState
play_turn t turn s = advance t turn (evaluate t turn s) s

unfoldable pub play : Thresholds → List TurnSignals → SessionState → SessionState
play t [] s = s
play t (turn ∷ turns) s = play t turns (play_turn t turn s)

-- The decisions on the way.
unfoldable pub decisions : Thresholds → List TurnSignals → SessionState → List Decision
decisions t [] s = []
decisions t (turn ∷ turns) s = evaluate t turn s ∷ decisions t turns (play_turn t turn s)

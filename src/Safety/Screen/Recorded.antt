-- ===== src/Safety/Screen/Recorded.antt =====
-- What screening records, and the state that it leads to.
use finchat.Base.{ℕ, ◌≡◌, false, Option, none, some, List, [], ◌∷◌, ◌++◌, length, ◌⊎◌}
use finchat.Safety.Signals.{Thresholds, TurnSignals, concurrent_turn}
use finchat.Safety.State.{Action, Decision, SessionState, advance}
use finchat.Safety.Evaluate.{evaluate}
use finchat.Safety.Screen.{Trail, Source, observed, override}

-- The state after decided turns.
unfoldable pub fold_log : Thresholds → List (TurnSignals × Decision) → SessionState → SessionState
fold_log t [] s = s
fold_log t ((turn, d) ∷ log) s = fold_log t log (advance t turn d s)

-- The trail `b` is `a` with these turns recorded behind it.
pub record Extends (t : Thresholds) (a b : Trail) (new : List (TurnSignals × Decision))
    : Type 0 where
  pub log : b.log ≡ a.log ++ new
  pub state : b.state ≡ fold_log t new a.state

-- What folding the pending entries records.
burst_log : Thresholds → ℕ → List (Option ℕ) → SessionState → List (TurnSignals × Decision)
burst_log t now [] s = []
burst_log t now (ts ∷ pending) s =
    let turn = concurrent_turn ts now in
    (turn, evaluate t turn s) ∷ burst_log t now pending (advance t turn (evaluate t turn s) s)

-- The turn of this message was recorded once, between those that were turned away before and after
-- it, and the outcome is the action that was decided for it.
pub record IsJudged (t : Thresholds) (now : ℕ) (source : Source) (a b : Trail) (o : Option Action)
    (turned_away_before turned_away_after : ℕ) : Type 0 where
  pub early : List (TurnSignals × Decision)
  pub turn : TurnSignals
  pub d : Decision
  pub late : List (TurnSignals × Decision)
  pub extends : Extends t a b (early ++ (turn, d) ∷ late)
  pub observed_turn : observed source (fold_log t early a.state).quarantined now ≡ some turn
  pub outcome : o ≡ override d.action
  pub length_early : length early ≡ turned_away_before
  pub length_late : length late ≡ turned_away_after

-- `classify` raised for a session that was not locked: the turns that were turned away before are
-- recorded, and no other, and there is no action.
pub record IsUnjudged (t : Thresholds) (source : Source) (a b : Trail) (o : Option Action)
    (turned_away_before : ℕ) : Type 0 where
  pub early : List (TurnSignals × Decision)
  pub extends : Extends t a b early
  pub raised : source ≡ Source.classifier none
  pub still_open : (fold_log t early a.state).quarantined ≡ false
  pub no_action : o ≡ none
  pub length_early : length early ≡ turned_away_before

-- What screening promises of its outcome and the trail that it leaves.
abbrev pub IsAccounted : Thresholds → ℕ → ℕ → ℕ → Source → Trail → Option Action × Trail → Type 0
IsAccounted t now before after source a (o, b) =
    IsJudged t now source a b o before after ⊎ IsUnjudged t source a b o before

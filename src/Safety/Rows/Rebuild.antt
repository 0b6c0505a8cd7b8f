-- ===== src/Safety/Rows/Rebuild.antt =====
-- The rows of a session rebuild the state that decided it.
use finchat.Base.{
  ℕ, ◌*◌, ◌≤◌, ◌≡◌, refl, true, List, [], ◌∷◌, Option, none, some, arith, leb, nonempty, String,
  is_some, All, Bool-cases, inl, inr, sym, ◌∙◌,
}
use finchat.Base.Dict.{Dict}
use finchat.Safety.Signals.{Thresholds, TurnSignals, at_least, signals_at_least, is_security_hit}
use finchat.Safety.State.{Decision, SessionState, fresh, advance, is_flagged, supervised}
use finchat.Safety.Evaluate.{product_action, opening, evaluate, stay_locked, act}
use finchat.Safety.Session.Lock.{action-evaluate_open}
use finchat.Safety.Rows.{
  Origin, Row, round3, stored_signals, evidence_row, turn_of_row, decision_of_row, fold_rows,
  state_from_rows,
}

-- A decided turn, with where it came from.
pub record Decided : Type 0 where
  pub origin : Origin
  pub turn : TurnSignals
  pub decision : Decision

unfoldable pub fold_decided : Thresholds → List Decided → SessionState → SessionState
fold_decided t [] s = s
fold_decided t (d ∷ ds) s = fold_decided t ds (advance t d.turn d.decision s)

unfoldable pub rows_of : Thresholds → List Decided → List Row
rows_of t [] = []
rows_of t (d ∷ ds) = evidence_row t d.origin d.turn d.decision ∷ rows_of t ds

-- All of a session's state but the kept confidences, which the rows hold rounded, and the number
-- of breaches, which no decision reads.
pub record SameSession (a b : SessionState) : Type 0 where
  pub turns : a.turns ≡ b.turns
  pub flagged : a.flagged ≡ b.flagged
  pub consecutive_flagged : a.consecutive_flagged ≡ b.consecutive_flagged
  pub security_hits : a.security_hits ≡ b.security_hits
  pub security_times : a.security_times ≡ b.security_times
  pub refusals : a.refusals ≡ b.refusals
  pub tier1_hits : a.tier1_hits ≡ b.tier1_hits
  pub tier2_hits : a.tier2_hits ≡ b.tier2_hits
  pub quarantined : a.quarantined ≡ b.quarantined

-- A threshold with three decimals survives the rounding.
round3-ge : (m v : ℕ) → leb (m * 1000) v ≡ true → m * 1000 ≤ round3 v
unfolding round3
round3-ge m v h = ground arith

signals_at_least-stored :
    (med : ℕ) (cls : Option String) (d : Dict ℕ) (m : ℕ)
    → med ≡ m * 1000
    → nonempty (signals_at_least med cls (stored_signals med d))
      ≡ nonempty (signals_at_least med cls d)
unfolding signals_at_least stored_signals
signals_at_least-stored med cls [] m e = refl
signals_at_least-stored med cls ((k, v) ∷ d) m e =
    ground (arith, signals_at_least-stored med cls d m e, round3-ge m v)

module _ (t : Thresholds) (m : ℕ) (decimal : t.med ≡ m * 1000) (d : Decided) where
  abbrev reread : TurnSignals
  reread = turn_of_row (evidence_row t d.origin d.turn d.decision)

  at_least-reread :
      (cls : Option String)
      → nonempty (at_least t.med cls reread) ≡ nonempty (at_least t.med cls d.turn)
  unfolding at_least evidence_row turn_of_row
  at_least-reread cls = signals_at_least-stored t.med cls d.turn.signals m decimal

  is_flagged-reread : is_flagged t reread ≡ is_flagged t d.turn
  unfolding is_flagged
  is_flagged-reread = cc (at_least-reread (some "wellbeing"), at_least-reread (some "fraud"))

  is_security_hit-reread : is_security_hit t reread ≡ is_security_hit t d.turn
  unfolding is_security_hit evidence_row turn_of_row
  is_security_hit-reread = cc (at_least-reread (some "security"))

  SameSession-advance :
      (a b : SessionState)
      → is_some d.turn.ts ≡ true
      → SameSession a b
      → let r = evidence_row t d.origin d.turn d.decision in
        SameSession
          (advance t d.turn d.decision a)
          (advance t (turn_of_row r) (decision_of_row r) b)
  unfolding advance evidence_row turn_of_row decision_of_row
  SameSession-advance a b timed h = record {
    turns = ground (arith, h.turns);
    flagged = ground (arith, is_flagged-reread, h.flagged);
    consecutive_flagged = ground (arith, is_flagged-reread, h.consecutive_flagged);
    security_hits = ground (arith, is_security_hit-reread, h.security_hits);
    security_times = ground (arith, is_security_hit-reread, h.security_times);
    refusals = ground (arith, h.refusals);
    tier1_hits = ground (arith, h.tier1_hits);
    tier2_hits = ground (arith, h.tier2_hits);
    quarantined = ground (arith, h.quarantined);
  }

abbrev pub IsTimed : Decided → Type 0
IsTimed d = is_some d.turn.ts ≡ true

fold_rows-SameSession :
    (t : Thresholds) (m : ℕ) (ds : List Decided) (a b : SessionState)
    → t.med ≡ m * 1000
    → All IsTimed ds
    → SameSession a b
    → SameSession (fold_decided t ds a) (fold_rows t (rows_of t ds) b)
unfolding fold_decided rows_of fold_rows
fold_rows-SameSession t m [] a b decimal timed h = h
fold_rows-SameSession t m (d ∷ ds) a b decimal timed h =
    fold_rows-SameSession t m ds _ _ decimal timed.1
      (SameSession-advance t m decimal d a b timed.0 h)

SameSession-refl : (a : SessionState) → SameSession a a
SameSession-refl a = ground arith

locked_both :
    (t : Thresholds) (turn : TurnSignals) (a b : SessionState)
    → SameSession a b
    → a.quarantined ≡ true
    → (evaluate t turn a).action ≡ (evaluate t turn b).action
unfolding evaluate stay_locked act
locked_both t turn a b h locked = ground (arith, h.quarantined)

product_action-SameSession :
    (t : Thresholds) (turn : TurnSignals) (a b : SessionState) (d : Decision)
    → SameSession a b
    → product_action t turn a d ≡ product_action t turn b d
unfolding product_action supervised
product_action-SameSession t turn a b d h = cc (h.security_hits, h.tier1_hits)

SameSession-action :
    (t : Thresholds) (turn : TurnSignals) (a b : SessionState)
    → SameSession a b
    → (evaluate t turn a).action ≡ (evaluate t turn b).action
SameSession-action t turn a b h = elim (Bool-cases a.quarantined) [
  | inl locked ↦ locked_both t turn a b h locked
  | inr open_session ↦ cc (
    action-evaluate_open t turn a open_session,
    action-evaluate_open t turn b (sym h.quarantined ∙ open_session),
    product_action-SameSession t turn a b (opening t turn) h,
  )
]

fold_rows_from_fresh :
    (t : Thresholds) (m : ℕ) (ds : List Decided) (counts : Option (ℕ × ℕ))
    → t.med ≡ m * 1000
    → All IsTimed ds
    → SameSession (fold_decided t ds fresh) (state_from_rows t (rows_of t ds) counts)
unfolding state_from_rows
fold_rows_from_fresh t m ds none decimal timed =
    fold_rows-SameSession t m ds fresh fresh decimal timed (SameSession-refl fresh)
fold_rows_from_fresh t m ds (some (sessions, hits)) decimal timed =
    let same = fold_rows-SameSession t m ds fresh fresh decimal timed (SameSession-refl fresh) in
    ground (arith, same)

-- If the `med` threshold has at most three decimals and every decided turn has a time, the state
-- that is rebuilt from the rows of these turns is the one that they led to, up to the kept
-- confidences, the number of breaches and the counts of the principal; and on every next turn the
-- product takes the same action in both.
pub rows_rebuild :
    (t : Thresholds) (m : ℕ) (ds : List Decided) (counts : Option (ℕ × ℕ)) (turn : TurnSignals)
    → t.med ≡ m * 1000
    → All IsTimed ds
    → let live = fold_decided t ds fresh in
      let rebuilt = state_from_rows t (rows_of t ds) counts in
      SameSession live rebuilt × ((evaluate t turn live).action ≡ (evaluate t turn rebuilt).action)
rows_rebuild t m ds counts turn decimal timed =
    let same = fold_rows_from_fresh t m ds counts decimal timed in
    (same, SameSession-action t turn _ _ same)

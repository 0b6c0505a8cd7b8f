-- ===== src/Safety/Session/Lock.antt =====
-- When a session is locked, and that the lock stays.
use finchat.Base.{
  ◌+◌, ◌<◌, ◌≡◌, refl, ap, true, false, ◌||◌, List, [], ◌∷◌, arith, leb, count, any, All,
}
use finchat.Safety.Signals.{Thresholds, TurnSignals, is_security_hit}
use finchat.Safety.State.{
  Decision, SessionState, Reason, no_action, quarantine, fresh, advance, is_quarantine, bump_if,
}
use finchat.Safety.Evaluate.{
  evaluate, product_action, with_review, review, opening, stay_locked, breached, reaches_lock,
}
use finchat.Safety.Session.{play, play_turn, decisions}

-- The decision of a locked session.
abbrev pub IsLock : Decision → Type 0
IsLock d = (d.tier ≡ 1) × (d.action ≡ quarantine)

pub evaluate_locked :
    (t : Thresholds) (turn : TurnSignals) (s : SessionState)
    → s.quarantined ≡ true
    → IsLock (evaluate t turn s)
unfolding evaluate stay_locked
evaluate_locked t turn s h = rw h (refl, refl)

pub play_turn_locked :
    (t : Thresholds) (turn : TurnSignals) (s : SessionState)
    → s.quarantined ≡ true
    → (play_turn t turn s).quarantined ≡ true
unfolding play_turn advance
play_turn_locked t turn s h = rw (evaluate_locked t turn s h).1

-- In a session that is locked every later turn is decided as a tier-1 quarantine, whatever is
-- said, and the session is locked after it.
pub quarantine_sticky :
    (t : Thresholds) (turns : List TurnSignals) (s : SessionState)
    → s.quarantined ≡ true
    → All IsLock (decisions t turns s) × ((play t turns s).quarantined ≡ true)
unfolding play decisions
quarantine_sticky t [] s h = (tt, h)
quarantine_sticky t (turn ∷ turns) s h =
    let rest = quarantine_sticky t turns (play_turn t turn s) (play_turn_locked t turn s h) in
    ((evaluate_locked t turn s h, rest.0), rest.1)

action-with_review :
    (t : Thresholds) (turn : TurnSignals) (rs : List Reason) (d : Decision)
    → (with_review t turn rs d).action ≡ d.action
unfolding with_review
action-with_review t turn [] d = refl
action-with_review t turn (r ∷ rs) d = ground arith

is_quarantine-product_action :
    (t : Thresholds) (turn : TurnSignals) (s : SessionState) (d : Decision)
    → d.action ≡ no_action
    → is_quarantine (product_action t turn s d).action ≡ (breached t turn || reaches_lock t turn s)
unfolding product_action
is_quarantine-product_action t turn s d h = ground arith

-- A review never changes what the product does.
pub action-evaluate_open :
    (t : Thresholds) (turn : TurnSignals) (s : SessionState)
    → s.quarantined ≡ false
    → (evaluate t turn s).action ≡ (product_action t turn s (opening t turn)).action
unfolding evaluate
action-evaluate_open t turn s h =
    ground (
      arith,
      action-with_review t turn (review t turn s) (product_action t turn s (opening t turn)),
    )

-- One turn locks an open session exactly if an attempt worked or the count is reached.
pub play_turn_locks :
    (t : Thresholds) (turn : TurnSignals) (s : SessionState)
    → s.quarantined ≡ false
    → (play_turn t turn s).quarantined ≡ (breached t turn || reaches_lock t turn s)
unfolding play_turn advance opening
play_turn_locks t turn s h = ground (
  arith,
  ap is_quarantine (action-evaluate_open t turn s h),
  is_quarantine-product_action t turn s (opening t turn) refl,
)

pub security_hits-play_turn :
    (t : Thresholds) (turn : TurnSignals) (s : SessionState)
    → (play_turn t turn s).security_hits ≡ bump_if (is_security_hit t turn) s.security_hits
unfolding play_turn advance
security_hits-play_turn t turn s = refl

pub lock_exact_from :
    (t : Thresholds) (turns : List TurnSignals) (s : SessionState)
    → s.quarantined ≡ false
    → s.security_hits < t.security_quarantine
    → (play t turns s).quarantined ≡ (
        leb t.security_quarantine (s.security_hits + count (is_security_hit t) turns)
        || any (breached t) turns)
unfolding play
lock_exact_from t [] s h lt = ground arith
lock_exact_from t (turn ∷ turns) s h lt = ground (
  arith,
  play_turn_locks t turn s h,
  security_hits-play_turn t turn s,
  quarantine_sticky t turns (play_turn t turn s),
  lock_exact_from t turns (play_turn t turn s),
)

-- With a positive threshold, a new session is locked after a run of turns exactly if the security
-- hits among them reach the threshold or one of them is a strong probe that the answer gave in to.
pub lock_exact :
    (t : Thresholds) (turns : List TurnSignals)
    → 0 < t.security_quarantine
    → (play t turns fresh).quarantined
      ≡ (leb t.security_quarantine (count (is_security_hit t) turns) || any (breached t) turns)
lock_exact t turns pos = ground (arith, lock_exact_from t turns fresh refl pos)

-- ===== src/Safety/Screen/Outcome.antt =====
-- What screening promises: bursts lock, outages do not pass, every turn is recorded.
use finchat.Base.{
  ℕ, ◌+◌, ◌<◌, ◌≤◌, ◌≡◌, ◌≢◌, refl, ap, suc, Bool, true, false, Option, none, some, List, [], ◌∷◌,
  arith, le→leb, count, length, Bool-cases, inl, inr, ◌⊎◌, if-true,
}
use finchat.Safety.Signals.{Thresholds, TurnSignals, concurrent_turn, is_security_hit, certain}
use finchat.Safety.State.{Decision, SessionState, quarantine}
use finchat.Safety.Evaluate.{evaluate}
use finchat.Safety.Session.{play_turn, play}
use finchat.Safety.Session.Lock.{lock_exact_from, quarantine_sticky, evaluate_locked}
use finchat.Safety.Screen.{
  Trail, Source, blank_turn, record_turn, fold_concurrent, observed, fail_closed, override, judged,
  screen,
}

-- A turn that the lock turned away is a security hit under every threshold up to certainty.
concurrent_turn-hit :
    (t : Thresholds) (ts : Option ℕ) (now : ℕ)
    → t.med ≤ certain
    → is_security_hit t (concurrent_turn ts now) ≡ true
unfolding is_security_hit concurrent_turn
concurrent_turn-hit t ts now h = ground arith

-- The session is locked, or its hits are still below the threshold.
abbrev pub IsOpenOrLocked : Thresholds → SessionState → Type 0
IsOpenOrLocked t s = (s.quarantined ≡ false) → s.security_hits < t.security_quarantine

-- The pending entries as turns.
abbrev burst : ℕ → List (Option ℕ) → List TurnSignals
burst now [] = []
burst now (ts ∷ pending) = concurrent_turn ts now ∷ burst now pending

state-fold_concurrent :
    (t : Thresholds) (now : ℕ) (pending : List (Option ℕ)) (trail : Trail)
    → (fold_concurrent t now pending trail).state ≡ play t (burst now pending) trail.state
unfolding fold_concurrent record_turn play play_turn
state-fold_concurrent t now [] trail = refl
state-fold_concurrent t now (ts ∷ pending) trail = state-fold_concurrent t now pending _

count-burst :
    (t : Thresholds) (now : ℕ) (pending : List (Option ℕ))
    → t.med ≤ certain
    → count (is_security_hit t) (burst now pending) ≡ length pending
count-burst t now [] h = refl
count-burst t now (ts ∷ pending) h =
    rw (concurrent_turn-hit t ts now h) (ap suc (count-burst t now pending h))

burst_locks :
    (t : Thresholds) (now : ℕ) (pending : List (Option ℕ)) (s : SessionState)
    → t.med ≤ certain
    → IsOpenOrLocked t s
    → t.security_quarantine ≤ s.security_hits + length pending
    → (play t (burst now pending) s).quarantined ≡ true
burst_locks t now pending s med below enough = elim (Bool-cases s.quarantined) [
  | inl locked ↦ (quarantine_sticky t (burst now pending) s locked).1
  | inr open_session ↦
      rw (lock_exact_from t (burst now pending) s open_session (below open_session))
        (rw (count-burst t now pending med) (rw (le→leb _ _ enough) refl))
]

override-locked :
    (t : Thresholds) (closed : Bool) (turn : TurnSignals) (s : SessionState)
    → s.quarantined ≡ true
    → override (fail_closed closed turn (evaluate t turn s)).action ≡ some quarantine
unfolding fail_closed
override-locked t closed turn s locked = ground (arith, (evaluate_locked t turn s locked).1)

-- A session that is locked when the turn is judged: the classifier is not asked.
judged-locked :
    (t : Thresholds) (closed : Bool) (now : ℕ) (after : List (Option ℕ)) (source : Source)
    (counted : Trail)
    → counted.state.quarantined ≡ true
    → (judged t closed now after (observed source counted.state.quarantined now) counted).0
      ≡ some quarantine
unfolding judged observed
judged-locked t closed now after (Source.armor cls) counted locked =
    override-locked t closed (blank_turn true cls now) counted.state locked
judged-locked t closed now after (Source.classifier found) counted locked =
    if-true (λ seen. (judged t closed now after seen counted).0 ≡ some quarantine)
      counted.state.quarantined _ found locked
      (override-locked t closed (blank_turn false none now) counted.state locked)

pub screen_locked :
    (t : Thresholds) (closed : Bool) (now : ℕ) (before after : List (Option ℕ)) (source : Source)
    (trail : Trail)
    → trail.state.quarantined ≡ true
    → (screen t closed now before after source trail).0 ≡ some quarantine
unfolding screen
screen_locked t closed now before after source trail locked =
    judged-locked t closed now after source _ (
      rw (state-fold_concurrent t now before trail)
        ((quarantine_sticky t (burst now before) trail.state locked).1))

-- If the session was open below its threshold or already locked, and its security hits with the
-- turns that the session lock turned away reach the threshold, the answer of the turn that drains
-- them is replaced by the quarantine, whatever Model Armor or the classifier said of that turn.
pub screen_burst :
    (t : Thresholds) (closed : Bool) (now : ℕ) (before after : List (Option ℕ)) (source : Source)
    (trail : Trail)
    → t.med ≤ certain
    → IsOpenOrLocked t trail.state
    → t.security_quarantine ≤ trail.state.security_hits + length before
    → (screen t closed now before after source trail).0 ≡ some quarantine
unfolding screen
screen_burst t closed now before after source trail med below enough =
    judged-locked t closed now after source _ (
      rw (state-fold_concurrent t now before trail)
        (burst_locks t now before trail.state med below enough))

override-failed :
    (turn : TurnSignals) (d : Decision)
    → turn.classifier_error ≡ true
    → override (fail_closed true turn d).action ≢ none
unfolding fail_closed
override-failed turn d error = ground arith

judged_passed :
    (t : Thresholds) (now : ℕ) (after : List (Option ℕ)) (found : Option TurnSignals)
    (counted : Trail)
    → (judged t true now after found counted).0 ≡ none
    → (found ≡ none)
      ⊎ ((turn : TurnSignals) × (found ≡ some turn) × (turn.classifier_error ≡ false))
unfolding judged
judged_passed t now after none counted passed = inl refl
judged_passed t now after (some turn) counted passed = elim (Bool-cases turn.classifier_error) [
  | inl error ↦ absurd (override-failed turn _ error passed)
  | inr judged_well ↦ inr (turn, refl, judged_well)
]

-- Under SAFETY_FAIL_CLOSED an answer that the classifier was asked for is passed on as it is only if
-- the session was not locked by the turns turned away before, and the classifier judged the turn
-- with no error or `classify` raised; and if it raised for a session that was not locked, the answer
-- is passed on.
pub screen_fail_closed :
    (t : Thresholds) (now : ℕ) (before after : List (Option ℕ)) (found : Option TurnSignals)
    (trail : Trail)
    → let locked = (fold_concurrent t now before trail).state.quarantined in
      let o = (screen t true now before after (Source.classifier found) trail).0 in
      ((o ≡ none)
        → (locked ≡ false)
          × ((found ≡ none)
              ⊎ ((turn : TurnSignals) × (found ≡ some turn) × (turn.classifier_error ≡ false))))
      × ((locked ≡ false) → (found ≡ none) → o ≡ none)
unfolding screen observed judged
screen_fail_closed t now before after found trail = (
  λ passed. elim (Bool-cases (fold_concurrent t now before trail).state.quarantined) [
    | inl locked ↦ cc (
      judged-locked t true now after (Source.classifier found) (fold_concurrent t now before trail)
          locked,
      passed,
    )
    | inr open_session ↦
        (open_session, judged_passed t now after found _ (rw open_session at passed))
  ],
  λ open_session raised. rw (open_session, raised) refl,
)

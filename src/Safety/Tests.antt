-- ===== src/Safety/Tests.antt =====
-- The safety theorems at concrete sessions.
use finchat.Base.{
  ◌≤◌, ℕ, ◌≡◌, refl, true, false, Option, none, some, List, [], ◌∷◌, arith, All, count, any, leb,
  ◌||◌, ◌⊎◌,
}
use finchat.Safety.Signals.{TurnSignals, default_thresholds, is_security_hit, at_least, concurrent}
use finchat.Safety.State.{
  SessionState, fresh, advance, is_flagged, top_flagged, security_hits_within, supervised,
}
use finchat.Safety.Evaluate.{
  evaluate, breached, product_action, opening, review, with_review, stay_locked, strong_probe,
  fired, review_class,
}
use finchat.Safety.Session.{play, play_turn, decisions}
use finchat.Safety.Session.Lock.{IsLock, quarantine_sticky, lock_exact}
use finchat.Safety.Session.Decisions.{IsCoherent, evaluate-IsCoherent}
use finchat.Safety.Session.Counters.{session_counts, IsCounted}
use finchat.Safety.Rows.{Origin, state_from_rows}
use finchat.Safety.Rows.Rebuild.{Decided, SameSession, rows_rebuild, fold_decided, rows_of}
use finchat.Safety.Verdict.{Reply, rated, replied, not_a_number}
use finchat.Safety.Screen.{Trail, Source, fold_concurrent, screen}
use finchat.Safety.Screen.Outcome.{screen_fail_closed}

abbrev probe : TurnSignals
probe = record {
  signals = ("jailbreak_probe", 800000) ∷ ("answer_policy_breach", 100000) ∷ [];
  agent_refused = true;
  armor_blocked = false;
  armor_class = none;
  classifier_error = false;
  ts = some 60000000;
}

abbrev distress : TurnSignals
distress = record {
  signals = ("self_harm", 500400) ∷ [];
  agent_refused = false;
  armor_blocked = false;
  armor_class = none;
  classifier_error = false;
  ts = some 120000000;
}

abbrev outage : TurnSignals
outage = record {
  signals = [];
  agent_refused = false;
  armor_blocked = false;
  armor_class = none;
  classifier_error = true;
  ts = some 130000000;
}

abbrev probes : List TurnSignals
probes = probe ∷ probe ∷ distress ∷ probe ∷ probe ∷ probe ∷ []

abbrev locked : SessionState
locked = record fresh { quarantined = true }

five_probes_lock : (play default_thresholds probes fresh).quarantined ≡ true
unfolding play play_turn advance evaluate is_security_hit product_action opening review with_review
    stay_locked is_flagged top_flagged security_hits_within breached strong_probe fired at_least
    concurrent review_class supervised
five_probes_lock = refl

quarantine_sticky_example :
    All IsLock (decisions default_thresholds probes locked)
    × ((play default_thresholds probes locked).quarantined ≡ true)
quarantine_sticky_example = quarantine_sticky default_thresholds probes locked refl

lock_exact_example : (play default_thresholds probes fresh).quarantined ≡ (
    leb 5 (count (is_security_hit default_thresholds) probes)
    || any (breached default_thresholds) probes)
lock_exact_example = lock_exact default_thresholds probes (omega arith)

evaluate-IsCoherent_example : IsCoherent (evaluate default_thresholds distress locked)
evaluate-IsCoherent_example = evaluate-IsCoherent default_thresholds distress locked

session_counts_example :
    let s = play default_thresholds probes fresh in
    IsCounted s × (security_hits_within 10 (some 60000000) s ≤ s.security_hits)
session_counts_example = session_counts default_thresholds probes 10 (some 60000000)

abbrev origin : Origin
origin = record {
  conversation_id = "c1";
  session_key = "k1";
  principal_hash = "p1";
  turn_index = 1;
  now = 60000000;
}

abbrev decided : List Decided
decided =
    record { origin = origin; turn = probe; decision = evaluate default_thresholds probe fresh }
    ∷ []

rows_rebuild_example :
    let live = fold_decided default_thresholds decided fresh in
    let rebuilt = state_from_rows default_thresholds (rows_of default_thresholds decided) none in
    SameSession live rebuilt
    × ((evaluate default_thresholds distress live).action
        ≡ (evaluate default_thresholds distress rebuilt).action)
rows_rebuild_example =
    rows_rebuild default_thresholds 400 decided none distress (omega arith) (refl, tt)

abbrev forged : Reply
forged = replied (
    some (record {
      signals = ("concurrent_turn", rated 1000000) ∷ ("self_harm", not_a_number) ∷ [];
      agent_refused = true;
    }))

abbrev start : Trail
start = record { state = fresh; log = [] }

abbrev waiting : List (Option ℕ)
waiting = some 1 ∷ some 2 ∷ none ∷ some 4 ∷ some 5 ∷ []

screen_fail_closed_example :
    let locked = (fold_concurrent default_thresholds 9 [] start).state.quarantined in
    let o =
      (screen default_thresholds true 9 [] waiting (Source.classifier (some outage)) start).0 in
    ((o ≡ none)
      → (locked ≡ false)
        × (((some outage) ≡ none)
            ⊎ ((turn : TurnSignals) × (some outage ≡ some turn) × (turn.classifier_error ≡ false))))
    × ((locked ≡ false) → (some outage ≡ none) → o ≡ none)
screen_fail_closed_example = screen_fail_closed default_thresholds 9 [] waiting (some outage) start

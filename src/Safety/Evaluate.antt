-- ===== src/Safety/Evaluate.antt =====
-- `evaluate` (ui/safety_signals.py, lines 268 to 361): the ladder of product actions, the list
-- of review reasons, and how the two are joined.
use Prim.Native.String.{◌++◌ as str_append}
use finchat.Base.{
  ℕ, ◌+◌, String, Bool, false, ◌&&◌, ◌||◌, Option, none, some, List, [], ◌∷◌, ◌++◌, if◌then◌else◌,
  leb, ltb, larger, nonempty, keep_last, length, ◌==◌, str_eq,
}
use finchat.Base.Dict.{Dict}
use finchat.Safety.Names.{sorted, sorted_set}
use finchat.Safety.Signals.{
  Thresholds, TurnSignals, breach_signal, confidence, at_least, armor_security, is_security_hit,
  concurrent,
}
use finchat.Safety.State.{
  Action, Severity, Decision, SessionState, Reason, no_action, handoff_crisis, handoff_fraud,
  quarantine, info, warning, error, critical, supervised, is_flagged, top_flagged, wellbeing_now,
  fraud_now, bump_if, security_hits_within,
}

names : Dict ℕ → List String
names [] = []
names ((n, c) ∷ d) = n ∷ names d

-- `turn.armor_class or 'blocked'`
abbrev armor_word : Option String → String
armor_word none = "blocked"
armor_word (some c) = if str_eq c "" then "blocked" else c

abbrev armor_filter : TurnSignals → List String
armor_filter turn =
    if turn.armor_blocked then str_append "armor_" (armor_word turn.armor_class) ∷ [] else []

-- The names that fired, and Model Armor's class.
unfoldable pub fired : Thresholds → TurnSignals → List String
unfolding names sorted
fired t turn = sorted (names (at_least t.med none turn)) ++ armor_filter turn

abbrev pub reason_if : Bool → Reason → List Reason
reason_if b r = if b then r ∷ [] else []

-- The decision before either tier is looked at.
unfoldable pub opening : Thresholds → TurnSignals → Decision
opening t turn = record {
  tier = 0;
  action = no_action;
  cls = none;
  reasons = reason_if (concurrent turn) Reason.concurrent_turn;
  filters = fired t turn;
  severity = info;
}

abbrev pub with_lock : List String → List String
with_lock filters = sorted_set (filters ++ "session_quarantine" ∷ [])

-- `d.tier, d.action, d.cls, d.severity = 1, ...` with the reason and the filters.
unfoldable pub act : Action → String → Severity → Reason → List String → Decision → Decision
act action cls severity reason filters d = record d {
  tier = 1;
  action = action;
  cls = some cls;
  severity = severity;
  reasons = d.reasons ++ reason ∷ [];
  filters = filters;
}

-- The sticky quarantine.
unfoldable pub stay_locked : Decision → Decision
unfolding act
stay_locked d = act quarantine "security" error Reason.session_quarantined (with_lock d.filters) d

-- `bool(turn.at_least(t["high"], "security")) or (armor_blocked and armor_class == "security")`
unfoldable pub strong_probe : Thresholds → TurnSignals → Bool
strong_probe t turn = nonempty (at_least t.high (some "security") turn) || armor_security turn

-- An attempt that worked.
unfoldable pub breached : Thresholds → TurnSignals → Bool
breached t turn = strong_probe t turn && leb t.leak_quarantine (confidence breach_signal turn)

abbrev pub high_for : Thresholds → SessionState → ℕ
high_for t s = if supervised s then t.supervised_high else t.high

abbrev pub reaches_lock : Thresholds → TurnSignals → SessionState → Bool
reaches_lock t turn s = leb t.security_quarantine (bump_if (is_security_hit t turn) s.security_hits)

abbrev pub in_crisis : Thresholds → TurnSignals → SessionState → Bool
in_crisis t turn s = leb (high_for t s) (confidence "self_harm" turn)

abbrev pub defrauded : Thresholds → TurnSignals → SessionState → Bool
defrauded t turn s =
    leb (high_for t s)
      (larger (confidence "scam_victim" turn) (confidence "third_party_coercion" turn))

unfoldable pub product_action : Thresholds → TurnSignals → SessionState → Decision → Decision
unfolding act
product_action t turn s d =
    if breached t turn
    then act quarantine "security" critical Reason.answer_breach_on_security_probe
        (with_lock d.filters) d
    else if reaches_lock t turn s
    then act quarantine "security" error (Reason.security_hits t.security_quarantine)
        (with_lock d.filters) d
    else if in_crisis t turn s
    then act handoff_crisis "wellbeing" error (Reason.self_harm (supervised s)) d.filters d
    else if defrauded t turn s
    then act handoff_fraud "fraud" error (Reason.fraud_signal (supervised s)) d.filters d
    else d

abbrev pub climbs : List ℕ → Bool
climbs (a ∷ b ∷ c ∷ rest) = ltb a b && ltb b c
climbs _ = false

abbrev pub flagged_review : Thresholds → TurnSignals → SessionState → List Reason
flagged_review t turn s =
    reason_if (leb t.session_flagged_review (bump_if (is_flagged t turn) s.flagged))
      (Reason.session_flagged t.session_flagged_review)
    ++ (reason_if
          (leb t.consecutive_flagged (if is_flagged t turn then s.consecutive_flagged + 1 else 0))
          (Reason.consecutive_flagged t.consecutive_flagged)
        ++ reason_if
            (is_flagged t turn
              && (leb 2 (length s.trailing_conf)
                  && climbs (keep_last 2 s.trailing_conf ++ top_flagged t turn ∷ [])))
            Reason.escalation_slope)

abbrev pub spoke : Thresholds → TurnSignals → Bool
spoke t turn = nonempty (fired t turn) || turn.agent_refused

abbrev pub conduct_review : Thresholds → TurnSignals → SessionState → List Reason
conduct_review t turn s =
    reason_if (leb t.refusals_review (bump_if turn.agent_refused s.refusals) && spoke t turn)
      (Reason.refusals t.refusals_review)
    ++ (reason_if (leb t.security_review (bump_if (is_security_hit t turn) s.security_hits))
          (Reason.security_hits t.security_review)
        ++ reason_if
            (is_security_hit t turn
              && leb t.velocity_review (
                  bump_if (is_security_hit t turn)
                    (security_hits_within t.velocity_window_min turn.ts s)))
            (Reason.security_velocity t.velocity_review t.velocity_window_min))

abbrev pub history_review : Thresholds → TurnSignals → SessionState → List Reason
history_review t turn s =
    reason_if (leb t.high (confidence breach_signal turn)) Reason.answer_policy_breach
    ++ (reason_if
          ((is_flagged t turn || is_security_hit t turn)
            && leb t.principal_sessions_repeat s.principal_sessions_flagged)
          (Reason.principal_repeat t.principal_sessions_repeat)
        ++ reason_if (leb t.long_session (s.turns + 1) && spoke t turn)
            (Reason.long_session t.long_session))

unfoldable pub review : Thresholds → TurnSignals → SessionState → List Reason
review t turn s = flagged_review t turn s ++ (conduct_review t turn s ++ history_review t turn s)

-- Who handles a review.
unfoldable pub review_class : Thresholds → TurnSignals → String
review_class t turn =
    if is_security_hit t turn
    then "security"
    else if nonempty (fraud_now t turn)
    then "fraud"
    else if nonempty (wellbeing_now t turn)
    then "wellbeing"
    else "conduct"

unfoldable pub with_review : Thresholds → TurnSignals → List Reason → Decision → Decision
with_review t turn [] d = d
with_review t turn (r ∷ rs) d =
    if d.tier == 0
    then record d {
      tier = 2;
      severity = warning;
      cls = some (review_class t turn);
      reasons = d.reasons ++ r ∷ rs;
    }
    else record d { reasons = d.reasons ++ r ∷ rs }

unfoldable pub evaluate : Thresholds → TurnSignals → SessionState → Decision
evaluate t turn s =
    if s.quarantined
    then stay_locked (opening t turn)
    else with_review t turn (review t turn s) (product_action t turn s (opening t turn))

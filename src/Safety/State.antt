-- ===== src/Safety/State.antt =====
-- The decision and the session state, with its fold (ui/safety_signals.py, lines 190 to 263).
use finchat.Base.{
  ℕ, ◌+◌, ◌*◌, String, Bool, true, false, ◌||◌, Option, none, some, List, [], ◌∷◌, ◌++◌,
  if◌then◌else◌, leb, larger, count, nonempty, keep_last, ◌==◌,
}
use finchat.Base.Dict.{Dict, insert}
use finchat.Safety.Signals.{
  Thresholds, TurnSignals, breach_signal, confidence, at_least, is_security_hit,
}

pub data Action : Type 0 where
  no_action handoff_crisis handoff_fraud quarantine withhold : Action

pub data Severity : Type 0 where
  info warning error critical : Severity

-- One constructor for each text that `reasons` can hold; the numbers stand in the text.
pub data Reason : Type 0 where
  concurrent_turn session_quarantined answer_breach_on_security_probe : Reason
  escalation_slope answer_policy_breach classifier_unavailable_fail_closed : Reason
  security_hits session_flagged consecutive_flagged refusals : ℕ → Reason
  principal_repeat long_session : ℕ → Reason
  security_velocity : ℕ → ℕ → Reason
  -- whether the text ends in "(supervised)"
  self_harm fraud_signal : Bool → Reason

pub record Decision : Type 0 where
  pub tier : ℕ
  pub action : Action
  pub cls : Option String
  pub reasons : List Reason
  pub filters : List String
  pub severity : Severity

pub record SessionState : Type 0 where
  pub turns : ℕ
  pub flagged : ℕ
  pub consecutive_flagged : ℕ
  pub trailing_conf : List ℕ
  pub security_hits : ℕ
  pub security_times : List ℕ
  pub refusals : ℕ
  pub breaches : ℕ
  pub tier1_hits : ℕ
  pub tier2_hits : ℕ
  pub quarantined : Bool
  pub principal_sessions_flagged : ℕ
  pub principal_security_hits : ℕ

-- `SessionState()`
abbrev pub fresh : SessionState
fresh = record {
  turns = 0;
  flagged = 0;
  consecutive_flagged = 0;
  trailing_conf = [];
  security_hits = 0;
  security_times = [];
  refusals = 0;
  breaches = 0;
  tier1_hits = 0;
  tier2_hits = 0;
  quarantined = false;
  principal_sessions_flagged = 0;
  principal_security_hits = 0;
}

unfoldable pub supervised : SessionState → Bool
supervised s = leb 1 s.tier1_hits

-- `{**d, **e}`
unfoldable pub merge : Dict ℕ → Dict ℕ → Dict ℕ
unfolding insert
merge d [] = d
merge d ((k, v) ∷ e) = merge (insert k v d) e

-- `max(d.values())`, which is called only where `d` has an entry.
unfoldable pub max_value : Dict ℕ → ℕ
max_value [] = 0
max_value ((k, v) ∷ d) = larger v (max_value d)

abbrev pub wellbeing_now : Thresholds → TurnSignals → Dict ℕ
wellbeing_now t turn = at_least t.med (some "wellbeing") turn

abbrev pub fraud_now : Thresholds → TurnSignals → Dict ℕ
fraud_now t turn = at_least t.med (some "fraud") turn

-- `wf or ff`
unfoldable pub is_flagged : Thresholds → TurnSignals → Bool
is_flagged t turn = nonempty (wellbeing_now t turn) || nonempty (fraud_now t turn)

unfoldable pub top_flagged : Thresholds → TurnSignals → ℕ
unfolding merge max_value
top_flagged t turn = max_value (merge (wellbeing_now t turn) (fraud_now t turn))

abbrev pub bump_if : Bool → ℕ → ℕ
bump_if b n = if b then n + 1 else n

abbrev pub append_time : Option ℕ → List ℕ → List ℕ
append_time none times = times
append_time (some ts) times = times ++ ts ∷ []

abbrev pub is_quarantine : Action → Bool
is_quarantine quarantine = true
is_quarantine _ = false

unfoldable pub advance : Thresholds → TurnSignals → Decision → SessionState → SessionState
advance t turn d s = record s {
  turns = s.turns + 1;
  flagged = bump_if (is_flagged t turn) s.flagged;
  consecutive_flagged = if is_flagged t turn then s.consecutive_flagged + 1 else 0;
  trailing_conf =
      if is_flagged t turn
      then keep_last 3 (s.trailing_conf ++ top_flagged t turn ∷ [])
      else s.trailing_conf;
  security_hits = bump_if (is_security_hit t turn) s.security_hits;
  security_times =
      if is_security_hit t turn then append_time turn.ts s.security_times else s.security_times;
  refusals = bump_if turn.agent_refused s.refusals;
  breaches = bump_if (leb t.high (confidence breach_signal turn)) s.breaches;
  tier1_hits = bump_if (d.tier == 1) s.tier1_hits;
  tier2_hits = bump_if (d.tier == 2) s.tier2_hits;
  quarantined = is_quarantine d.action || s.quarantined;
}

-- `(now - ts).total_seconds() <= minutes * 60`, in microseconds.
abbrev pub within_minutes : ℕ → ℕ → ℕ → Bool
within_minutes minutes now ts = leb now (ts + minutes * 60000000)

unfoldable pub security_hits_within : ℕ → Option ℕ → SessionState → ℕ
security_hits_within minutes none s = 0
security_hits_within minutes (some now) s = count (within_minutes minutes now) s.security_times

-- ===== src/Safety/Session/Counters.antt =====
-- The counters of a session: what holds of them in every state that turns can lead to.
use finchat.Base.{
  ℕ, ◌+◌, ◌-◌, ◌≤◌, List, [], ◌∷◌, ◌++◌, arith, length, length-append, length-drop, count-le-length,
  keep_last, Option, none, some,
}
use finchat.Safety.Signals.{Thresholds, TurnSignals}
use finchat.Safety.State.{
  Decision, SessionState, fresh, advance, top_flagged, security_hits_within, append_time,
  within_minutes,
}
use finchat.Safety.Evaluate.{evaluate}
use finchat.Safety.Session.{play, play_turn}

pub record IsCounted (s : SessionState) : Type 0 where
  pub consecutive : s.consecutive_flagged ≤ s.flagged
  pub flagged : s.flagged ≤ s.turns
  pub security : s.security_hits ≤ s.turns
  pub times : length s.security_times ≤ s.security_hits
  pub refused : s.refusals ≤ s.turns
  pub breaches : s.breaches ≤ s.turns
  pub tiers : s.tier1_hits + s.tier2_hits ≤ s.turns
  pub trailing : length s.trailing_conf ≤ 3

length-keep_last_le {ℓ} : {A : Type ℓ} (n : ℕ) (xs : List A) → length (keep_last n xs) ≤ n
length-keep_last_le n xs = omega (arith, length-drop (length xs - n) xs)

length-append_time :
    (ts : Option ℕ) (times : List ℕ) → length (append_time ts times) ≤ length times + 1
length-append_time none times = omega arith
length-append_time (some ts) times = omega (arith, length-append times (ts ∷ []))

pub advance-IsCounted :
    (t : Thresholds) (turn : TurnSignals) (d : Decision) (s : SessionState)
    → IsCounted s
    → IsCounted (advance t turn d s)
unfolding advance
advance-IsCounted t turn d s h = record {
  consecutive = ground arith;
  flagged = ground arith;
  security = ground arith;
  times = ground (arith, length-append_time turn.ts s.security_times);
  refused = ground arith;
  breaches = ground arith;
  tiers = ground arith;
  trailing = ground (arith, length-keep_last_le 3 (s.trailing_conf ++ top_flagged t turn ∷ []));
}

hits_within_le :
    (minutes : ℕ) (now : Option ℕ) (s : SessionState)
    → IsCounted s
    → security_hits_within minutes now s ≤ s.security_hits
unfolding security_hits_within
hits_within_le minutes none s h = omega arith
hits_within_le minutes (some now) s h =
    omega (arith, count-le-length (within_minutes minutes now) s.security_times, h.times)

fresh-IsCounted : IsCounted fresh
fresh-IsCounted = omega arith

play-IsCounted :
    (t : Thresholds) (turns : List TurnSignals) (s : SessionState)
    → IsCounted s
    → IsCounted (play t turns s)
unfolding play play_turn
play-IsCounted t [] s h = h
play-IsCounted t (turn ∷ turns) s h =
    play-IsCounted t turns (play_turn t turn s) (advance-IsCounted t turn (evaluate t turn s) s h)

-- In every state that a session reaches, a run of flagged turns is no longer than their number,
-- no count of turns of one kind exceeds the number of turns, at most three confidences are kept,
-- and the hits inside any time window are at most the security hits.
pub session_counts :
    (t : Thresholds) (turns : List TurnSignals) (minutes : ℕ) (now : Option ℕ)
    → let s = play t turns fresh in
      IsCounted s × (security_hits_within minutes now s ≤ s.security_hits)
session_counts t turns minutes now =
    let counted = play-IsCounted t turns fresh fresh-IsCounted in
    (counted, hits_within_le minutes now (play t turns fresh) counted)

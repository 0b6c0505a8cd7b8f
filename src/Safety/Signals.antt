-- ===== src/Safety/Signals.antt =====
-- The taxonomy, the thresholds and one turn (ui/safety_signals.py, lines 45 to 187).
-- A confidence is a number of millionths, and an instant a number of microseconds.
use finchat.Base.{
  ℕ, String, Bool, true, false, ◌&&◌, ◌||◌, Option, none, some, List, [], ◌∷◌, ◌++◌, if◌then◌else◌,
  leb, ltb, str_eq, member, nonempty,
}
use finchat.Base.Dict.{Dict, lookup, get_or}

abbrev pub security_signals : List String
security_signals =
    "jailbreak_probe" ∷ "identity_probe" ∷ "system_probe" ∷ "social_engineering" ∷ "action_attempt"
    ∷ []

abbrev pub fraud_signals : List String
fraud_signals = "scam_victim" ∷ "third_party_coercion" ∷ []

abbrev pub wellbeing_signals : List String
wellbeing_signals = "self_harm" ∷ "financial_distress" ∷ "gambling_harm" ∷ []

abbrev pub signal_classes : List (String × List String)
signal_classes =
    ("security", security_signals)
    ∷ ("fraud", fraud_signals)
    ∷ ("wellbeing", wellbeing_signals)
    ∷ []

abbrev pub breach_signal : String
breach_signal = "answer_policy_breach"

abbrev pub concurrent_signal : String
concurrent_signal = "concurrent_turn"

abbrev pub server_signals : List String
server_signals = concurrent_signal ∷ []

abbrev members_of : List (String × List String) → List String
members_of [] = []
members_of ((cls, members) ∷ rest) = members ++ members_of rest

-- `ALL_SIGNALS`
abbrev pub all_signals : List String
all_signals = members_of signal_classes ++ breach_signal ∷ []

unfoldable pub class_in : String → List (String × List String) → Option String
class_in name [] = none
class_in name ((cls, members) ∷ rest) = if member name members then some cls else class_in name rest

unfoldable pub signal_class : String → Option String
unfolding class_in
signal_class name =
    if member name server_signals then some "security" else class_in name signal_classes

pub record Thresholds : Type 0 where
  pub high : ℕ
  pub med : ℕ
  pub supervised_high : ℕ
  pub session_flagged_review : ℕ
  pub consecutive_flagged : ℕ
  pub refusals_review : ℕ
  pub security_review : ℕ
  pub velocity_window_min : ℕ
  pub velocity_review : ℕ
  pub principal_sessions_repeat : ℕ
  pub long_session : ℕ
  pub security_quarantine : ℕ
  pub leak_quarantine : ℕ

abbrev pub default_thresholds : Thresholds
default_thresholds = record {
  high = 700000;
  med = 400000;
  supervised_high = 400000;
  session_flagged_review = 3;
  consecutive_flagged = 3;
  refusals_review = 2;
  security_review = 3;
  velocity_window_min = 10;
  velocity_review = 3;
  principal_sessions_repeat = 2;
  long_session = 40;
  security_quarantine = 5;
  leak_quarantine = 700000;
}

pub record TurnSignals : Type 0 where
  pub signals : Dict ℕ
  pub agent_refused : Bool
  pub armor_blocked : Bool
  pub armor_class : Option String
  pub classifier_error : Bool
  pub ts : Option ℕ

-- `self.signals.get(name, 0.0)`
unfoldable pub confidence : String → TurnSignals → ℕ
unfolding lookup
confidence name turn = get_or 0 (lookup name turn.signals)

abbrev pub in_class : Option String → String → Bool
in_class none name = true
in_class (some cls) name = elim (signal_class name) [ none ↦ false | some c ↦ str_eq c cls ]

unfoldable pub signals_at_least : ℕ → Option String → Dict ℕ → Dict ℕ
signals_at_least level cls [] = []
signals_at_least level cls ((n, c) ∷ rest) =
    let kept = signals_at_least level cls rest in
    if leb level c && in_class cls n then (n, c) ∷ kept else kept

unfoldable pub at_least : ℕ → Option String → TurnSignals → Dict ℕ
unfolding signals_at_least signal_class
at_least level cls turn = signals_at_least level cls turn.signals

-- `self.armor_blocked and self.armor_class == "security"`
abbrev pub is_security : Option String → Bool
is_security none = false
is_security (some cls) = str_eq cls "security"

abbrev pub armor_security : TurnSignals → Bool
armor_security turn = turn.armor_blocked && is_security turn.armor_class

unfoldable pub is_security_hit : Thresholds → TurnSignals → Bool
unfolding at_least
is_security_hit t turn = nonempty (at_least t.med (some "security") turn) || armor_security turn

unfoldable pub concurrent : TurnSignals → Bool
unfolding confidence
concurrent turn = ltb 0 (confidence concurrent_signal turn)

-- One millionth times a million: full confidence.
abbrev pub certain : ℕ
certain = 1000000

-- `ts or _now()`, with the clock's reading as an argument.
unfoldable pub concurrent_turn : Option ℕ → ℕ → TurnSignals
concurrent_turn ts now = record {
  signals = (concurrent_signal, certain) ∷ [];
  agent_refused = false;
  armor_blocked = false;
  armor_class = none;
  classifier_error = false;
  ts = some (get_or now ts);
}

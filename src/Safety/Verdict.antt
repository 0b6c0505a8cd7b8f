-- ===== src/Safety/Verdict.antt =====
-- The classifier's verdict (`parse_verdict` and `classify` of ui/safety_signals.py). The JSON text
-- is read as the document that it encodes; the texts of the rationale are left out.
pub mod Clean
use finchat.Base.{
  ℕ, String, Bool, true, false, ◌≡◌, ◌≤◌, Option, none, some, List, [], ◌∷◌, if◌then◌else◌, leb,
  member, arith,
}
use mathlib.Core.Option
use finchat.Base.Dict.{Dict, insert, lookup}
use finchat.Safety.Signals.{
  TurnSignals, all_signals, server_signals, breach_signal, concurrent_signal, certain, concurrent,
}

-- What `float(conf)` meets: a number, or a value on which it raises.
pub data Rating : Type 0 where
  rated : ℕ → Rating
  negative not_a_number unreadable : Rating

pub record Verdict : Type 0 where
  pub signals : List (String × Rating)
  pub agent_refused : Bool

-- `max(0.0, min(1.0, float(conf)))`; `min` keeps 1.0 beside a NaN.
unfoldable pub clamp : Rating → Option ℕ
clamp (rated v) = some (if leb v certain then v else certain)
clamp negative = some 0
clamp not_a_number = some certain
clamp unreadable = none

store_rating : String → Option ℕ → Dict ℕ → Option (Dict ℕ)
store_rating name none sig = none
store_rating name (some c) sig = some (insert name c sig)

-- One round of the loop over the items. An unknown name is dropped unread.
unfoldable pub add_rating : String → Rating → Dict ℕ → Option (Dict ℕ)
unfolding store_rating
add_rating name conf sig =
    if member name all_signals then store_rating name (clamp conf) sig else some sig

unfoldable pub collect : List (String × Rating) → Dict ℕ → Option (Dict ℕ)
unfolding add_rating
collect [] sig = some sig
collect ((name, conf) ∷ rest) sig = elim (add_rating name conf sig) [
  | none ↦ none
  | some sig' ↦ collect rest sig'
]

-- The document is `none` where the text is empty or is no JSON object.
unfoldable pub parse_verdict : Option Verdict → Option (Dict ℕ × Bool)
parse_verdict none = none
parse_verdict (some v) = Option.map (λ sig. (sig, v.agent_refused)) (collect v.signals [])

-- What `transport` does: it raises or gives nothing, or it gives a text.
pub data Reply : Type 0 where
  no_verdict : Reply
  replied : Option Verdict → Reply

unfoldable pub unscreened : ℕ → TurnSignals
unscreened now = record {
  signals = [];
  agent_refused = false;
  armor_blocked = false;
  armor_class = none;
  classifier_error = true;
  ts = some now;
}

-- A verdict on an empty answer is no refusal and no breach.
unfoldable pub screened : Bool → ℕ → Dict ℕ × Bool → TurnSignals
screened answered now (sig, refused) = record {
  signals = if answered then sig else insert breach_signal 0 sig;
  agent_refused = if answered then refused else false;
  armor_blocked = false;
  armor_class = none;
  classifier_error = false;
  ts = some now;
}

unfoldable pub of_parsed : Bool → ℕ → Option (Dict ℕ × Bool) → TurnSignals
of_parsed answered now none = unscreened now
of_parsed answered now (some parsed) = screened answered now parsed

-- `answered` is `bool((answer or "").strip())`.
unfoldable pub classify : Bool → Reply → ℕ → TurnSignals
unfolding of_parsed
classify answered no_verdict now = unscreened now
classify answered (replied doc) now = of_parsed answered now (parse_verdict doc)

-- A name that the classifier may report, at a confidence of at most 1.
abbrev pub IsClean : Dict ℕ → Type 0
IsClean [] = Unit
IsClean ((name, c) ∷ sig) = (member name all_signals ≡ true) × (c ≤ certain) × IsClean sig

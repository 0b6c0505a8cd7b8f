-- ===== src/Process/Routing.antt =====
-- products/process/api/analyst_routing.py: keyword scores, the reading of a model's answer, and the
-- order in which classifiers are tried. Lower and upper case are functions of Python's library, the
-- rendering of the prompt an argument.
pub mod Chosen
use Prim.Native.Char.{Char, code}
use finchat.Base.{
  ℕ, ◌+◌, ◌*◌, String, Bool, true, false, ◌&&◌, ◌||◌, not, Option, none, some, List, [], ◌∷◌,
  if◌then◌else◌, ltb, leb, ◌==◌, str_eq, count,
}
use finchat.Process.Words.{platform_words, kb_words, an_words, sem_words}

-- `s.startswith(w)`
unfoldable pub starts_with : String → String → Bool
starts_with String.[] s = true
starts_with (String.◌∷◌ c w) String.[] = false
starts_with (String.◌∷◌ c w) (String.◌∷◌ d s) =
    let rest = starts_with w s in (code c == code d) && rest

-- `w in s`
unfoldable pub contains : String → String → Bool
unfolding starts_with
contains w String.[] = starts_with w ""
contains w (String.◌∷◌ c s) = let rest = contains w s in starts_with w (String.◌∷◌ c s) || rest

-- `[a-z0-9_]`
abbrev pub is_word : Char → Bool
is_word c =
    (leb 97 (code c) && leb (code c) 122)
    || ((leb 48 (code c) && leb (code c) 57) || (code c == 95))

-- A place where `w` stands, with no word character before it; `inside` where one was just read.
unfoldable pub found : Bool → String → String → Bool
unfolding starts_with
found inside w String.[] = not inside && starts_with w ""
found inside w (String.◌∷◌ c s) =
    let rest = found (is_word c) w s in (not inside && starts_with w (String.◌∷◌ c s)) || rest

-- `w.strip()` on spaces
unfoldable pub left_strip : String → String
left_strip String.[] = ""
left_strip (String.◌∷◌ c s) =
    let rest = left_strip s in if code c == 32 then rest else String.◌∷◌ c s

unfoldable pub right_strip : String → String
right_strip String.[] = ""
right_strip (String.◌∷◌ c s) =
    let rest = right_strip s in if str_eq rest "" && (code c == 32) then "" else String.◌∷◌ c rest

unfoldable pub hits : String → List String → ℕ
unfolding found left_strip right_strip
hits ql words = count (λ w. found false (left_strip (right_strip w)) ql) words

-- `max(scores, key=scores.get)`: the first of the highest.
unfoldable pub best_of : String × ℕ → List (String × ℕ) → String × ℕ
best_of top [] = top
best_of top (entry ∷ entries) =
    let raised = best_of entry entries in
    let kept = best_of top entries in if ltb top.1 entry.1 then raised else kept

unfoldable pub scores : String → List (String × ℕ)
unfolding hits
scores ql =
    ("kb", hits ql kb_words)
    ∷ ("analytics", hits ql an_words)
    ∷ ("semantics", hits ql sem_words)
    ∷ ("platform", 2 * hits ql platform_words)
    ∷ []

-- The mode of the best score, if any keyword matched.
unfoldable pub heuristic_of : List (String × ℕ) → String
unfolding best_of
heuristic_of [] = "analytics"
heuristic_of (entry ∷ entries) =
    let best = best_of entry entries in if ltb 0 best.1 then best.0 else "analytics"

abbrev pub modes : List String
modes = "analytics" ∷ "kb" ∷ "semantics" ∷ "platform" ∷ []

-- What the call of a classifier does.
pub data Reply : Type 0 where
  raised : Reply
  text : Option String → Reply

-- `text or ""`
abbrev pub or_empty : Option String → String
or_empty none = ""
or_empty (some s) = s

module _ (lower upper : String → String) (routing_prompt : String → String) where
  unfoldable pub heuristic_intent : String → String
  unfolding heuristic_of
  heuristic_intent q = heuristic_of (scores (lower q))

  unfoldable pub parse_intent : Option String → Option String
  parse_intent answer =
      let txt = upper (or_empty answer) in
      if contains "PLATFORM" txt
      then some "platform"
      else if contains "SEMANTIC" txt
      then some "semantics"
      else if contains "KB" txt && not (contains "ANALYTIC" txt)
      then some "kb"
      else if contains "ANALYTIC" txt
      then some "analytics"
      else none

  -- The mode that a classifier names, if any.
  unfoldable pub named_mode : Reply → Option String
  named_mode raised = none
  named_mode (text answer) = parse_intent answer

  abbrev pub mode_or : Option String → String → String
  mode_or none rest = rest
  mode_or (some mode) rest = mode

  unfoldable pub classify_from : String → String → List (String → Reply) → String
  classify_from prompt question [] = heuristic_intent question
  classify_from prompt question (call ∷ classifiers) =
      let rest = classify_from prompt question classifiers in
      mode_or (named_mode (call prompt)) rest

  unfoldable pub classify : String → List (String → Reply) → String
  unfolding classify_from
  classify question classifiers = classify_from (routing_prompt question) question classifiers

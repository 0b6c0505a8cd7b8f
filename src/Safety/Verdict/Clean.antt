-- ===== src/Safety/Verdict/Clean.antt =====
-- What a classifier can put on a turn: known names only, and never a fact of the server's.
use finchat.Base.{ℕ, Bool, true, false, ◌≡◌, ◌≤◌, Option, none, some, [], arith}
use mathlib.Core.Option
use finchat.Base.Dict.{Dict}
use finchat.Safety.Signals.{TurnSignals, breach_signal, certain, concurrent, confidence}
use finchat.Safety.Verdict.{Rating, rated, clamp, IsClean}

clamp-le : (r : Rating) (c : ℕ) → clamp r ≡ some c → c ≤ certain
unfolding clamp
clamp-le (rated v) c e = ground arith
clamp-le _ c e = ground arith

abbrev IfSome : Option (Dict ℕ) → Type 0
IfSome none = Unit
IfSome (some sig) = IsClean sig

-- What a turn from the classifier promises.
abbrev pub IsScreened : Bool → TurnSignals → Type 0
IsScreened answered turn =
    IsClean turn.signals
    × (concurrent turn ≡ false)
    × (turn.armor_blocked ≡ false)
    × (turn.classifier_error ≡ true → turn.signals ≡ [])
    × (answered ≡ false → (turn.agent_refused ≡ false) × (confidence breach_signal turn ≡ 0))

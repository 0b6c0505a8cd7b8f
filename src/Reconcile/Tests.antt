-- ===== src/Reconcile/Tests.antt =====
-- The reconciliation at a concrete window.
use mathlib.Core.Logic.{◌↔◌}
use finchat.Base.{◌≡◌, String, true, none, some, List, [], ◌∷◌}
use finchat.Reconcile.{Row, reconcile, verdict}
use finchat.Reconcile.Exact.{IsDelivered, reconcile_exact}

abbrev row : String → Row
row key = record { message_key = key; occurrences = none }

-- A key that occurred twice was written three times.
abbrev evidence : List Row
evidence = record { message_key = "dlp:k"; occurrences = some 2 } ∷ row "scc:k" ∷ []

abbrev servicenow : List Row
servicenow = row "dlp:k" ∷ row "scc:k" ∷ row "dlp:k" ∷ row "dlp:k" ∷ []

reconcile_exact_example :
    ((verdict (reconcile evidence servicenow)).ok ≡ true)
    ↔ ((k : String) → IsDelivered evidence servicenow k)
reconcile_exact_example = reconcile_exact evidence servicenow

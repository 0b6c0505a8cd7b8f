-- ===== src/Transactions/Tests.antt =====
-- The validation of transactions at a concrete bundle.
use finchat.Base.{ℕ, leb, ◌≡◌, refl, String, Bool, true, false, Option, none, some, List, [], ◌∷◌}
use finchat.Base.Dict.{Dict}
use finchat.Transactions.Validate.{Value, words, number, nested, unreadable, object, amount_of}
use finchat.Transactions.Bundle.{Message, bundle}
use finchat.Transactions.Bundle.Sorted.{IsSorted, bundle-IsSorted}

abbrev fields : Value → Dict Value
fields txn_type =
    ("transaction_id", words "t1")
    ∷ ("idempotency_key", words "k1")
    ∷ ("account_id", words "a1")
    ∷ ("txn_type", txn_type)
    ∷ ("amount", number "12.5")
    ∷ ("currency", words "USD")
    ∷ ("status", words "POSTED")
    ∷ ("event_time", words "2026-09-19T10:00:00Z")
    ∷ []

abbrev deposit : Message
deposit = record { raw = "{...}"; payload = object (fields (words "DEPOSIT")) }

abbrev broken : Message
broken = record { raw = "{"; payload = unreadable }

abbrev listed : Message
listed = record { raw = "{...}"; payload = object (fields (nested "['DEPOSIT']")) }

abbrev is_iso : String → Bool
is_iso s = true

-- Three digits of cents, for the test below.
abbrev fits : ℕ → Bool
fits n = leb n 99999

abbrev messages : List Message
messages = deposit ∷ broken ∷ []

bundle-IsSorted_example : IsSorted is_iso fits "now" messages (bundle is_iso fits "now" messages)
bundle-IsSorted_example = bundle-IsSorted is_iso fits "now" messages

cents_read : amount_of "12.5" ≡ some 1250
unfolding amount_of
cents_read = refl

-- A list as the type fails the bundle; the message is in no dead letter.
listed_type_fails : bundle is_iso fits "now" (listed ∷ messages) ≡ none
unfolding bundle finchat.Base.Dict.lookup
listed_type_fails = refl

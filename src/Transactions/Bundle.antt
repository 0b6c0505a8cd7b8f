-- ===== src/Transactions/Bundle.antt =====
-- `ParseAndValidate.process` and `MaybeDeidentify.process` of products/transactions/pipeline/pipeline.py,
-- over the messages of one bundle; an exception that leaves `process` fails the bundle.
pub mod Parsed
pub mod Sorted
use finchat.Base.{
  ℕ, String, Bool, true, false, ◌&&◌, Option, none, some, List, [], ◌∷◌, if◌then◌else◌,
}
use finchat.Transactions.Validate.{
  Value, words, Reason, Transaction, Result, valid, invalid, raised, Payload, parse_and_validate,
  is_present, str,
}

-- The text of a message, and what it decodes to.
pub record Message : Type 0 where
  pub raw : String
  pub payload : Payload

-- `to_dlq_envelope`
pub record Envelope : Type 0 where
  pub error : Reason
  pub payload : String
  pub failed_at : String
  pub pipeline_version : String

unfoldable pub to_dlq_envelope : String → String → Reason → Envelope
to_dlq_envelope now raw error = record {
  error = error;
  payload = raw;
  failed_at = now;
  pipeline_version = "1.0.0";
}

-- What `process` yields, on the tag of the valid records or on that of the dead letters.
pub data Yielded : Type 0 where
  main : Transaction → Yielded
  dlq : Envelope → Yielded
  failed : Yielded

abbrev pub Outputs : Type 0
Outputs = List Transaction × List Envelope

module _ (is_iso : String → Bool) (fits : ℕ → Bool) (now : String) where
  unfoldable pub yielded : String → Result → Yielded
  unfolding to_dlq_envelope
  yielded raw (valid r) = main r
  yielded raw (invalid error) = dlq (to_dlq_envelope now raw error)
  yielded raw raised = failed

  unfoldable pub process : Message → Yielded
  unfolding yielded parse_and_validate
  process message = yielded message.raw (parse_and_validate is_iso fits message.payload)

  -- One message in front of the outputs of the others.
  unfoldable pub added : Yielded → Option Outputs → Option Outputs
  added _ none = none
  added (main r) (some (records, letters)) = some (r ∷ records, letters)
  added (dlq e) (some (records, letters)) = some (records, e ∷ letters)
  added failed (some outputs) = none

  unfoldable pub bundle : List Message → Option Outputs
  unfolding process added
  bundle [] = some ([], [])
  bundle (m ∷ messages) = added (process m) (bundle messages)

-- `mask` is what DLP gives for a text; `sampled` whether the record is in the sample.
module _ (has_client : Bool) (mask : String → String) where
  unfoldable pub masked : Bool → Option Value → Option Value
  unfolding is_present str
  masked sampled none = none
  masked sampled (some v) =
      if has_client && (is_present v && sampled) then some (words (mask (str v))) else some v

  unfoldable pub deidentify : Bool → Transaction → Transaction
  unfolding masked
  deidentify sampled r = record r { counterparty_account = masked sampled r.counterparty_account }

-- ===== src/Transactions/Bundle/Sorted.antt =====
-- Where each message of a bundle ends.
use finchat.Base.{
  ℕ, ◌+◌, ◌≡◌, refl, String, Bool, true, Option, none, some, List, [], ◌∷◌, arith, All, count, ap,
  suc, any, length,
}
use finchat.Transactions.Validate.{Result, valid, invalid, raised, parse_and_validate}
use finchat.Transactions.Bundle.{Message, Outputs, yielded, process, added, bundle}
use finchat.Transactions.Bundle.Parsed.{
  IsConformant, is_fatal, is_record, IsParsed, parse_and_validate-cases,
}

module _ (is_iso : String → Bool) (fits : ℕ → Bool) (now : String) where
  -- What a bundle gives, by its messages.
  abbrev pub IsSorted : List Message → Option Outputs → Type 0
  IsSorted messages none = any (λ (m : Message). is_fatal fits m.payload) messages ≡ true
  IsSorted messages (some (records, letters)) =
      All (IsConformant is_iso) records
      × (length records ≡ count (λ (m : Message). is_record is_iso m.payload) messages)
      × (length records + length letters ≡ length messages)

  record Sorted (messages : List Message) (o : Option Outputs) : Type 0 where
    sorted : IsSorted messages o

  added-Sorted :
      (m : Message) (r : Result) (messages : List Message) (o : Option Outputs)
      → IsParsed is_iso fits m.payload r
      → Sorted messages o
      → Sorted (m ∷ messages) (added is_iso fits now (yielded is_iso fits now m.raw r) o)
  unfolding added yielded
  added-Sorted m (valid t) messages none h k = record { sorted = ground (arith, k.sorted) }
  added-Sorted m (invalid e) messages none h k = record { sorted = ground (arith, k.sorted) }
  added-Sorted m raised messages none h k = record { sorted = ground (arith, k.sorted) }
  added-Sorted m (valid t) messages (some (records, letters)) h k =
      let (fine, found) = h.0 t refl in
      record {
        sorted = ((fine, k.sorted.0), rw found (ap suc k.sorted.1), omega (arith, k.sorted.2));
      }
  added-Sorted m (invalid e) messages (some (records, letters)) h k = record {
    sorted = (k.sorted.0, rw (h.1 e refl) k.sorted.1, omega (arith, k.sorted.2));
  }
  added-Sorted m raised messages (some (records, letters)) h k = record {
    sorted = ground (arith, h.2 refl);
  }

  -- In a bundle every message ends either as a record or as one dead letter, and there are as many of
  -- them together as messages. There are as many records as messages that hold an object with all
  -- fields, a known type and status, an amount and a currency of their form and a readable instant,
  -- and each record names a transaction, an idempotency key and an account and has such a type and
  -- status, currency and instant. Or the bundle fails, and then a message has a list or an object as
  -- its type or status, or an integer beyond the floats as its amount, or makes `json.loads` raise
  -- otherwise, which is not written to the dead letters.
  pub bundle-IsSorted :
      (messages : List Message) → IsSorted messages (bundle is_iso fits now messages)
  unfolding bundle process
  bundle-IsSorted messages = (go messages).sorted
    where
      go : (messages : List Message) → Sorted messages (bundle is_iso fits now messages)
      go [] = record { sorted = (tt, refl, refl) }
      go (m ∷ messages) =
          added-Sorted m (parse_and_validate is_iso fits m.payload) messages
            (bundle is_iso fits now messages)
            (parse_and_validate-cases is_iso fits m.payload _ refl) (go messages)

-- ===== src/Transactions/Validate.antt =====
-- `parse_and_validate`, `enrich` and `dlp_template_path` of products/transactions/pipeline/transforms.py,
-- which pipeline.py repeats. A payload is the document that it encodes.
use Prim.Native.Char.{code}
use text.Mathlib.Text.{starts_with}
use Prim.Native.String.{◌++◌ as ◌<>◌}
use finchat.Base.{
  ℕ, zero, suc, ◌+◌, ◌-◌, ◌*◌, String, Bool, true, false, ◌&&◌, not, Option, none, some, List, [],
  ◌∷◌, if◌then◌else◌, leb, str_eq, member, select, nonempty, ◌==◌,
}
use finchat.Base.Dict.{Dict, lookup}
use finchat.Oauth.Config.{filled}

-- A JSON value; of a number, a list or an object, its `str`.
pub data Value : Type 0 where
  null : Value
  words : String → Value
  number : String → Value
  boolean : Bool → Value
  nested : String → Value

unfoldable pub str : Value → String
str null = "None"
str (words s) = s
str (number s) = s
str (boolean true) = "True"
str (boolean false) = "False"
str (nested s) = s

abbrev pub valid_types : List String
valid_types = "DEPOSIT" ∷ "WITHDRAWAL" ∷ "TRANSFER" ∷ "FEE" ∷ []

abbrev pub valid_status : List String
valid_status = "POSTED" ∷ "PENDING" ∷ "REJECTED" ∷ []

abbrev pub required : List String
required =
    "transaction_id" ∷ "idempotency_key" ∷ "account_id" ∷ "txn_type" ∷ "amount" ∷ "currency"
    ∷ "status" ∷ "event_time" ∷ []

-- How much of `_AMOUNT_RE` was read.
pub data Stage : Type 0 where
  start whole point tenth hundredth newline : Stage

abbrev pub is_digit : ℕ → Bool
is_digit c = leb 48 c && leb c 57

-- What one more character is read as; `$` matches in front of a newline at the end, too.
unfoldable pub next_stage : Stage → ℕ → Option Stage
next_stage start c = if is_digit c then some whole else none
next_stage whole c =
    if is_digit c
    then some whole
    else if c == 46
    then some point
    else if c == 10
    then some newline
    else none
next_stage point c = if is_digit c then some tenth else none
next_stage tenth c = if is_digit c then some hundredth else if c == 10 then some newline else none
next_stage hundredth c = if c == 10 then some newline else none
next_stage newline c = none

-- The cents that the digits read so far stand for, where the text may end.
unfoldable pub cents_at : Stage → ℕ → Option ℕ
cents_at start cents = none
cents_at whole cents = some cents
cents_at point cents = none
cents_at tenth cents = some cents
cents_at hundredth cents = some cents
cents_at newline cents = some cents

-- The digit at the place of the stage, added to the cents.
unfoldable pub add_digit : Stage → ℕ → ℕ → ℕ
add_digit whole c cents = cents * 10 + (c - 48) * 100
add_digit tenth c cents = cents + (c - 48) * 10
add_digit hundredth c cents = cents + (c - 48)
add_digit _ c cents = cents

-- The match of `_AMOUNT_RE`, with `float(...)` of the text in cents.
unfoldable pub scan : Stage → ℕ → String → Option ℕ
unfolding next_stage cents_at add_digit
scan stage cents String.[] = cents_at stage cents
scan stage cents (String.◌∷◌ c s) = elim (next_stage stage (code c)) [
  | none ↦ none
  | some stage' ↦ scan stage' (add_digit stage' (code c) cents) s
]

unfoldable pub amount_of : String → Option ℕ
unfolding scan
amount_of s = scan start 0 s

-- `_CCY_RE`, with the letters that are left.
unfoldable pub is_letters : ℕ → String → Bool
is_letters zero String.[] = true
is_letters zero (String.◌∷◌ c s) = code c == 10 && str_eq s ""
is_letters (suc n) String.[] = false
is_letters (suc n) (String.◌∷◌ c s) = (leb 65 (code c) && leb (code c) 90) && is_letters n s

unfoldable pub is_currency : String → Bool
unfolding is_letters
is_currency s = is_letters 3 s

-- `s.replace("Z", "+00:00")`
unfoldable pub replace_z : String → String
replace_z String.[] = ""
replace_z (String.◌∷◌ c s) =
    let rest = replace_z s in if code c == 90 then "+00:00" <> rest else String.◌∷◌ c rest

-- `obj[f]` of a field that is there
abbrev pub or_null : Option Value → Value
or_null none = null
or_null (some v) = v

unfoldable pub at : String → Dict Value → Value
at f obj = or_null (lookup f obj)

-- Neither None nor the empty text.
unfoldable pub is_present : Value → Bool
is_present null = false
is_present (words s) = filled s
is_present _ = true

unfoldable pub missing : Dict Value → List String
unfolding at is_present
missing obj = select (λ f. not (is_present (at f obj))) required

-- `value in {...}`; none where the value cannot be hashed, and Python raises.
unfoldable pub in_set : List String → Value → Option Bool
in_set names (words s) = some (member s names)
in_set names (nested s) = none
in_set names _ = some false

pub data Reason : Type 0 where
  unparseable not_an_object missing_fields bad_txn_type bad_status bad_amount bad_currency
        bad_event_time :
      Reason

-- A float: a number of cents, or the infinity that a text beyond the floats is read as.
pub data Amount : Type 0 where
  cents_of : ℕ → Amount
  infinite : Amount

pub record Transaction : Type 0 where
  pub transaction_id : Value
  pub idempotency_key : Value
  pub account_id : Value
  pub txn_type : Value
  pub amount : Amount
  pub currency : Value
  pub counterparty_account : Option Value
  pub status : Value
  pub event_time : String

pub data Result : Type 0 where
  valid : Transaction → Result
  -- ValidationError
  invalid : Reason → Result
  -- any other exception
  raised : Result

pub data Payload : Type 0 where
  unreadable : Payload
  -- JSON, but no object
  other : Payload
  object : Dict Value → Payload
  -- `json.loads` raises something else, as for an integer of more than 4300 digits
  breaking : Payload

-- A test by membership, and the rest behind it.
unfoldable pub in_or : Option Bool → Reason → Result → Result
in_or none reason rest = raised
in_or (some true) reason rest = rest
in_or (some false) reason rest = invalid reason

-- `is_iso`: whether `datetime.fromisoformat` reads the text. `fits`: whether a number of cents is in
-- the range of `float`, which raises on an integer beyond it.
module _ (is_iso : String → Bool) (fits : ℕ → Bool) where
  -- `float(obj["amount"])`, for an amount that stands for these cents.
  unfoldable pub floated : Value → ℕ → Option Amount
  floated (number s) cents = if fits cents then some (cents_of cents) else none
  floated _ cents = some (if fits cents then cents_of cents else infinite)

  unfoldable pub rebuilt : Dict Value → String → Option Amount → Result
  unfolding at
  rebuilt obj time none = raised
  rebuilt obj time (some amount) = valid (record {
    transaction_id = at "transaction_id" obj;
    idempotency_key = at "idempotency_key" obj;
    account_id = at "account_id" obj;
    txn_type = at "txn_type" obj;
    amount = amount;
    currency = at "currency" obj;
    counterparty_account = lookup "counterparty_account" obj;
    status = at "status" obj;
    event_time = time;
  })

  unfoldable pub measured : Dict Value → Option ℕ → Result
  unfolding at is_currency replace_z str floated rebuilt
  measured obj none = invalid bad_amount
  measured obj (some cents) =
      let time = replace_z (str (at "event_time" obj)) in
      if not (is_currency (str (at "currency" obj)))
      then invalid bad_currency
      else if not (is_iso time)
      then invalid bad_event_time
      else rebuilt obj time (floated (at "amount" obj) cents)

  unfoldable pub validate : Dict Value → Result
  unfolding missing in_or in_set measured amount_of at str
  validate obj =
      if nonempty (missing obj)
      then invalid missing_fields
      else in_or (in_set valid_types (at "txn_type" obj)) bad_txn_type (
          in_or (in_set valid_status (at "status" obj)) bad_status
            (measured obj (amount_of (str (at "amount" obj)))))

  unfoldable pub parse_and_validate : Payload → Result
  unfolding validate
  parse_and_validate unreadable = invalid unparseable
  parse_and_validate other = invalid not_an_object
  parse_and_validate (object obj) = validate obj
  parse_and_validate breaking = raised

-- A row of the Silver table.
pub record Row : Type 0 where
  pub transaction : Transaction
  pub ingest_time : String
  pub source_system : String
  pub pipeline_version : String

unfoldable pub enrich : String → String → Transaction → Row
enrich now source_system transaction = record {
  transaction = transaction;
  ingest_time = now;
  source_system = source_system;
  pipeline_version = "1.0.0";
}

unfoldable pub dlp_template_path : (project location kind template : String) → String
dlp_template_path project location kind template =
    if filled template && not (starts_with template "projects/")
    then "projects/" <> project <> "/locations/" <> location <> "/" <> kind <> "/" <> template
    else template

-- ===== src/Transactions/Bundle/Parsed.antt =====
-- What the validation of one payload gives.
use finchat.Base.{
  ℕ, ◌≡◌, refl, String, Bool, true, false, ◌&&◌, ◌||◌, not, Option, none, some, List, [], ◌∷◌,
  arith, All, is_some, select, nonempty, member, if-cases, Bool-cases, inl, inr,
}
use finchat.Base.Dict.{Dict}
use finchat.Transactions.Validate.{
  Value, Amount, null, words, number, boolean, nested, str, valid_types, valid_status, required,
  is_currency, replace_z, at, is_present, missing, in_set, Reason, Transaction, Result, valid,
  invalid, raised, Payload, unreadable, other, object, in_or, breaking, amount_of, floated, rebuilt,
  measured, validate, parse_and_validate, bad_txn_type, bad_status,
}

-- A list or an object, which Python cannot hash.
abbrev pub is_nested : Value → Bool
is_nested (nested s) = true
is_nested _ = false

abbrev pub is_beyond : (ℕ → Bool) → Option ℕ → Bool
is_beyond fits none = false
is_beyond fits (some cents) = not (fits cents)

-- A JSON integer beyond the floats.
abbrev pub is_huge : (ℕ → Bool) → Value → Bool
is_huge fits (number s) = is_beyond fits (amount_of s)
is_huge fits _ = false

-- What the validation cannot reject as invalid.
abbrev pub is_fatal : (ℕ → Bool) → Payload → Bool
is_fatal fits (object obj) =
    (is_nested (at "txn_type" obj) || is_nested (at "status" obj)) || is_huge fits (at "amount" obj)
is_fatal fits breaking = true
is_fatal fits _ = false

-- One of the texts.
abbrev pub is_one : List String → Value → Bool
is_one names (words s) = member s names
is_one names _ = false

-- What a record is made of: an object with all fields, a known type and status, an amount and a
-- currency of their form, and a readable instant.
abbrev pub is_record : (String → Bool) → Payload → Bool
is_record is_iso (object obj) =
    not (nonempty (missing obj))
    && (is_one valid_types (at "txn_type" obj)
        && (is_one valid_status (at "status" obj)
            && (is_some (amount_of (str (at "amount" obj)))
                && (is_currency (str (at "currency" obj))
                    && is_iso (replace_z (str (at "event_time" obj)))))))
is_record is_iso _ = false

-- What the Silver table wants of a record.
pub record IsConformant (is_iso : String → Bool) (r : Transaction) : Type 0 where
  pub identified :
      (is_present r.transaction_id && is_present r.idempotency_key) && is_present r.account_id
      ≡ true
  pub typed : is_one valid_types r.txn_type ≡ true
  pub tagged : is_one valid_status r.status ≡ true
  pub priced : is_currency (str r.currency) ≡ true
  pub dated : is_iso r.event_time ≡ true

module _ (is_iso : String → Bool) (fits : ℕ → Bool) where
  -- What the validation of an object may give.
  abbrev IsValidated : Dict Value → Result → Type 0
  IsValidated obj (valid r) = IsConformant is_iso r × (is_record is_iso (object obj) ≡ true)
  IsValidated obj (invalid reason) = is_record is_iso (object obj) ≡ false
  IsValidated obj raised = is_fatal fits (object obj) ≡ true

  record Validated (obj : Dict Value) (r : Result) : Type 0 where
    validated : IsValidated obj r

  select-none :
      (p : String → Bool) (names : List String)
      → nonempty (select p names) ≡ false
      → All (λ f. p f ≡ false) names
  select-none p [] h = tt
  select-none p (f ∷ names) h = elim (Bool-cases (p f)) [
    | inl found ↦ cc (rw found at h)
    | inr gone ↦ (gone, select-none p names (rw gone at h))
  ]

  missing-none :
      (obj : Dict Value)
      → nonempty (missing obj) ≡ false
      → All (λ f. not (is_present (at f obj)) ≡ false) required
  unfolding missing
  missing-none obj h = select-none (λ f. not (is_present (at f obj))) required h

  in_or-Validated :
      (obj : Dict Value) (names : List String) (v : Value) (reason : Reason) (rest : Result)
      → (is_nested v ≡ true → is_fatal fits (object obj) ≡ true)
      → (is_one names v ≡ false → is_record is_iso (object obj) ≡ false)
      → (is_one names v ≡ true → Validated obj rest)
      → Validated obj (in_or (in_set names v) reason rest)
  unfolding in_or in_set
  in_or-Validated obj names null reason rest h l k = record { validated = l refl }
  in_or-Validated obj names (number s) reason rest h l k = record { validated = l refl }
  in_or-Validated obj names (boolean b) reason rest h l k = record { validated = l refl }
  in_or-Validated obj names (nested s) reason rest h l k = record { validated = h refl }
  in_or-Validated obj names (words s) reason rest h l k = elim (Bool-cases (member s names)) [
    | inl one ↦ rw (in_or, one) (k one)
    | inr no_one ↦ rw (in_or, no_one) (record { validated = l no_one })
  ]

  floated-none :
      (v : Value) (cents : ℕ)
      → amount_of (str v) ≡ some cents
      → floated is_iso fits v cents ≡ none
      → is_huge fits v ≡ true
  unfolding floated str
  floated-none null cents e h = cc
  floated-none (words s) cents e h = cc
  floated-none (number s) cents e h = elim (Bool-cases (fits cents)) [
    | inl fitting ↦ cc (rw fitting at h)
    | inr large ↦ let read : amount_of s ≡ some cents = e in rw (read, large) refl
  ]
  floated-none (boolean b) cents e h = cc
  floated-none (nested s) cents e h = cc

  valid-IsConformant :
      {t r : Transaction} → valid t ≡ valid r → IsConformant is_iso t → IsConformant is_iso r
  valid-IsConformant {t} {r} e h = let same : t ≡ r = cc (e) in rw same at h

  rebuilt-Validated :
      (obj : Dict Value) (time : String) (found : Option Amount)
      → (found ≡ none → is_fatal fits (object obj) ≡ true)
      → is_record is_iso (object obj) ≡ true
      → ((amount : Amount) (r : Transaction)
          → rebuilt is_iso fits obj time (some amount) ≡ valid r
          → IsConformant is_iso r)
      → Validated obj (rebuilt is_iso fits obj time found)
  unfolding rebuilt
  rebuilt-Validated obj time none h well k = record { validated = h refl }
  rebuilt-Validated obj time (some amount) h well k = record { validated = (k amount _ refl, well) }

  measured-Validated :
      (obj : Dict Value) (found : Option ℕ)
      → amount_of (str (at "amount" obj)) ≡ found
      → nonempty (missing obj) ≡ false
      → is_one valid_types (at "txn_type" obj) ≡ true
      → is_one valid_status (at "status" obj) ≡ true
      → Validated obj (measured is_iso fits obj found)
  unfolding measured rebuilt
  measured-Validated obj none e there typed tagged = record {
    validated = rw (there, typed, tagged, e) refl;
  }
  measured-Validated obj (some cents) e there typed tagged =
      if-cases (Validated obj) (not (is_currency (str (at "currency" obj))))
        (λ bad.
          let bare : is_currency (str (at "currency" obj)) ≡ false = ground arith in
          record { validated = rw (there, typed, tagged, e, bare) refl })
        (λ priced.
          let named : is_currency (str (at "currency" obj)) ≡ true = ground arith in
          if-cases (Validated obj) (not (is_iso (replace_z (str (at "event_time" obj)))))
            (λ bad.
              let late : is_iso (replace_z (str (at "event_time" obj))) ≡ false = ground arith in
              record { validated = rw (there, typed, tagged, e, named, late) refl })
            (λ dated.
              let read : is_iso (replace_z (str (at "event_time" obj))) ≡ true = ground arith in
              let present = missing-none obj there in
              rebuilt-Validated obj _ (floated is_iso fits (at "amount" obj) cents)
                (λ huge.
                  let large = floated-none (at "amount" obj) cents e huge in ground (arith, large))
                (rw (there, typed, tagged, e, named, read) refl)
                (λ amount r same. valid-IsConformant same (record {
                  identified = ground (arith, present.0, present.1.0, present.1.1.0);
                  typed = typed;
                  tagged = tagged;
                  priced = named;
                  dated = read;
                }))))

  validate-Validated : (obj : Dict Value) → Validated obj (validate is_iso fits obj)
  unfolding validate
  validate-Validated obj =
      if-cases (Validated obj) (nonempty (missing obj))
        (λ gone. record { validated = rw gone refl })
        (λ there.
          in_or-Validated obj valid_types (at "txn_type" obj) bad_txn_type _ (λ e. ground arith)
            (λ other. rw (there, other) refl)
            (λ typed.
              in_or-Validated obj valid_status (at "status" obj) bad_status _ (λ e. ground arith)
                (λ other. rw (there, typed, other) refl)
                (λ tagged. measured-Validated obj _ refl there typed tagged)))

  -- What one message gives, for the claim on a bundle.
  abbrev pub IsParsed : Payload → Result → Type 0
  IsParsed p r =
      ((t : Transaction) → r ≡ valid t → IsConformant is_iso t × (is_record is_iso p ≡ true))
      × ((reason : Reason) → r ≡ invalid reason → is_record is_iso p ≡ false)
      × (r ≡ raised → is_fatal fits p ≡ true)

  pub parse_and_validate-cases :
      (p : Payload) (r : Result) → parse_and_validate is_iso fits p ≡ r → IsParsed p r
  unfolding parse_and_validate
  parse_and_validate-cases unreadable r e = (λ t f. cc, λ reason f. refl, λ f. cc)
  parse_and_validate-cases other r e = (λ t f. cc, λ reason f. refl, λ f. cc)
  parse_and_validate-cases breaking r e = (λ t f. cc, λ reason f. refl, λ f. refl)
  parse_and_validate-cases (object obj) r e =
      let found : Validated obj r = rw e at (validate-Validated obj) in
      (
        λ t f. (rw f at found).validated,
        λ reason f. (rw f at found).validated,
        λ f. (rw f at found).validated,
      )

-- ===== src/Answers/Masked.antt =====
-- ui/masked_results.py: the columns whose every value is NULL, and the note in front of an answer.
pub mod Reported
use finchat.Base.{
  ℕ, ◌≡◌, refl, String, Bool, true, false, ◌&&◌, not, Option, none, some, List, [], ◌∷◌,
  if◌then◌else◌, select, all, nonempty, length, Bool-cases, inl, inr, member, arith, eq_iff, ◌⊎◌,
  str_eq, All, ◌||◌,
}
use finchat.Base.Dict.{Dict, lookup}

-- A row that is a dict holds a value or NULL under a column; a row of another kind is none.
abbrev pub Row : Type 0
Row = Option (Dict (Option String))

abbrev pub has_column : String → Row → Bool
has_column col none = false
has_column col (some row) = elim (lookup col row) [ none ↦ false | some value ↦ true ]

abbrev pub is_null : String → Row → Bool
is_null col none = true
is_null col (some row) = elim (lookup col row) [
  | none ↦ true
  | some value ↦ elim value [ none ↦ true | some v ↦ false ]
]

unfoldable pub is_empty : List Row → String → Bool
is_empty rows col =
    let present = select (has_column col) rows in nonempty present && all (is_null col) present

unfoldable pub empty_columns : List String → List Row → List String
empty_columns columns [] = []
empty_columns columns (row ∷ rows) = select (is_empty (row ∷ rows)) columns

pub record Note : Type 0 where
  pub names : List String
  pub row_count : ℕ
  pub user_credentials : Bool

pub record Parsed : Type 0 where
  pub columns : List String
  pub rows : List Row
  pub answer : String
  pub masked_columns : List String
  pub note : Option Note

-- The note stands in front of the answer.
unfoldable pub annotate : Bool → Parsed → Parsed
unfolding empty_columns
annotate user_credentials parsed =
    let empties = empty_columns parsed.columns parsed.rows in
    if nonempty empties
    then record parsed {
      masked_columns = empties;
      note = some (record {
        names = empties;
        row_count = length parsed.rows;
        user_credentials = user_credentials;
      });
    }
    else parsed

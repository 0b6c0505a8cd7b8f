-- ===== src/Answers/Masked/Reported.antt =====
-- Which columns are reported as empty.
use finchat.Base.{
  ◌≡◌, refl, sym, ◌∙◌, String, Bool, true, ◌&&◌, ◌||◌, not, List, [], ◌∷◌, arith, select, all, any,
  nonempty, member, str_eq, eq_iff, Bool-cases, inl, inr,
}
use finchat.Answers.Masked.{Row, has_column, is_null, is_empty, empty_columns}

member-select :
    (p : String → Bool) (col : String) (columns : List String)
    → member col (select p columns) ≡ true
    → (p col ≡ true) × (member col columns ≡ true)
member-select p col [] e = cc
member-select p col (c ∷ columns) e = elim (Bool-cases (str_eq col c)) [
  | inl same ↦ elim (Bool-cases (p c)) [
    | inl kept ↦ (rw ((eq_iff col c).0 same) kept, rw same refl)
    | inr dropped ↦ ((member-select p col columns (rw dropped at e)).0, rw same refl)
  ]
  | inr other ↦
      let rest : member col (select p columns) ≡ true = elim (Bool-cases (p c)) [
        | inl kept ↦ rw other at (rw kept at e)
        | inr dropped ↦ rw dropped at e
      ] in
      let found = member-select p col columns rest in (found.0, rw other found.1)
]

nonempty-select : (p : Row → Bool) (rows : List Row) → nonempty (select p rows) ≡ any p rows
nonempty-select p [] = refl
nonempty-select p (r ∷ rows) = ground (arith, nonempty-select p rows)

all-select :
    (p q : Row → Bool) (rows : List Row) → all q (select p rows) ≡ all (λ r. not (p r) || q r) rows
all-select p q [] = refl
all-select p q (r ∷ rows) = ground (arith, all-select p q rows)

split_and : (a b : Bool) → (a && b) ≡ true → (a ≡ true) × (b ≡ true)
split_and a b e = (ground arith, ground arith)

-- A column is reported as empty only if it was asked for, some row has it, and every row that has it
-- holds NULL there: a column that is absent from the rows, or that holds a value in any of them, is
-- not reported.
pub empty_columns_sound :
    (columns : List String) (rows : List Row) (col : String)
    → member col (empty_columns columns rows) ≡ true
    → (member col columns ≡ true)
      × (any (has_column col) rows ≡ true)
      × (all (λ r. not (has_column col r) || is_null col r) rows ≡ true)
unfolding empty_columns is_empty
empty_columns_sound columns [] col e = cc
empty_columns_sound columns (r ∷ rows) col e =
    let found = member-select (is_empty (r ∷ rows)) col columns e in
    let both = split_and _ _ found.0 in
    (
      found.1,
      sym (nonempty-select (has_column col) (r ∷ rows)) ∙ both.0,
      sym (all-select (has_column col) (is_null col) (r ∷ rows)) ∙ both.1,
    )

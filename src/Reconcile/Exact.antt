-- ===== src/Reconcile/Exact.antt =====
-- When a reconciliation is clean.
use text.Mathlib.TextPositions.{eq_refl}
use mathlib.Core.Logic.{◌↔◌}
use finchat.Base.{
  ℕ, ◌+◌, ◌≤◌, ◌<◌, ◌≡◌, refl, ◌∙◌, sym, ap, String, Bool, true, false, ◌&&◌, not, Option, none,
  some, List, [], ◌∷◌, map, arith, if◌then◌else◌, ltb, ◌==◌, str_eq, eq_iff, member, select,
  nonempty, Bool-cases, inl, inr,
}
use finchat.Base.Dict.{Dict, lookup, lookup-insert, get_or}
use finchat.Oauth.Config.{filled}
use finchat.Chat.Events.{sorted, insert_name}
use finchat.Reconcile.{
  Row, occurrences_of, add_to, tally, count_keys, Duplicate, Reconciliation, keys, has, count_of,
  duplicate_of, insert_duplicate, sort_duplicates, is_duplicated, compare_counts, reconcile, clean,
  verdict,
}

-- How often the rows name a key.
unfoldable pub times : (Row → ℕ) → String → List Row → ℕ
times weight k [] = 0
times weight k (r ∷ rows) =
    let rest = times weight k rows in
    if filled r.message_key && str_eq r.message_key k then weight r + rest else rest

-- A count that is not there is none.
abbrev counted : ℕ → Option ℕ
counted n = if n == 0 then none else some n

get_or-counted : (n : ℕ) → get_or 0 (counted n) ≡ n
get_or-counted n = ground arith

counted-positive : (n w : ℕ) → 0 < w → some (n + w) ≡ counted (n + w)
counted-positive n w h = ground arith

lookup-add_to :
    (key k : String) (w n : ℕ) (counts : Dict ℕ)
    → 0 < w
    → lookup k counts ≡ counted n
    → lookup k (add_to key w counts) ≡ counted (if str_eq key k then n + w else n)
unfolding add_to
lookup-add_to key k w n counts h e =
    lookup-insert key k (get_or 0 (lookup key counts) + w) counts
    ∙ elim (Bool-cases (str_eq key k)) [
      | inl same ↦ rw (same, (eq_iff key k).0 same, e, get_or-counted n) (counted-positive n w h)
      | inr other ↦ rw other e
    ]

module _ (weight : Row → ℕ) (positive : (r : Row) → 0 < weight r) where
  lookup-tally :
      (k : String) (rows : List Row) (counts : Dict ℕ) (n : ℕ)
      → lookup k counts ≡ counted n
      → lookup k (tally weight rows counts) ≡ counted (n + times weight k rows)
  unfolding tally times add_to
  lookup-tally k [] counts n e = e ∙ ap counted (omega arith)
  lookup-tally k (r ∷ rows) counts n e = elim (Bool-cases (filled r.message_key)) [
    | inl given ↦ rw given (
        lookup-tally k rows (add_to r.message_key (weight r) counts)
          (if str_eq r.message_key k then n + weight r else n)
          (lookup-add_to r.message_key k (weight r) n counts (positive r) e)
        ∙ ap counted (ground arith))
    | inr blank ↦ rw blank (lookup-tally k rows counts n e)
  ]

  count_keys-times :
      (k : String) (rows : List Row)
      → (has (count_keys weight rows) k ≡ ltb 0 (times weight k rows))
        × (count_of (count_keys weight rows) k ≡ times weight k rows)
  unfolding count_keys lookup
  count_keys-times k rows =
      let e = lookup-tally k rows [] 0 refl in (ground (arith, e), ground (arith, e))

-- A selection by a test that no member passes, and conversely.
select-none :
    (p : String → Bool) (xs : List String)
    → nonempty (select p xs) ≡ false
    → (k : String) → member k xs ≡ true
    → p k ≡ false
select-none p [] h k m = cc
select-none p (x ∷ xs) h k m = elim (Bool-cases (p x)) [
  | inl found ↦ cc (rw found at h)
  | inr gone ↦ elim (Bool-cases (str_eq k x)) [
    | inl same ↦ rw ((eq_iff k x).0 same) gone
    | inr other ↦ select-none p xs (rw gone at h) k (rw other at m)
  ]
]

none-select :
    (p : String → Bool) (xs : List String)
    → ((k : String) → member k xs ≡ true → p k ≡ false)
    → nonempty (select p xs) ≡ false
none-select p [] h = refl
none-select p (x ∷ xs) h =
    let gone : p x ≡ false = h x (rw (eq_refl x) refl) in
    rw gone (none-select p xs (λ k m. h k (ground arith)))

member-keys : (k : String) (counts : Dict ℕ) → member k (keys counts) ≡ has counts k
unfolding lookup
member-keys k [] = refl
member-keys k ((j, n) ∷ counts) = ground (arith, eq_iff k j, eq_iff j k, member-keys k counts)

nonempty-insert_name : (x : String) (xs : List String) → nonempty (insert_name x xs) ≡ true
unfolding insert_name
nonempty-insert_name x [] = refl
nonempty-insert_name x (y ∷ ys) = ground arith

nonempty-sorted : (xs : List String) → nonempty (sorted xs) ≡ nonempty xs
unfolding sorted insert_name
nonempty-sorted [] = refl
nonempty-sorted (x ∷ xs) = nonempty-insert_name x (sorted xs)

nonempty-insert_duplicate :
    (d : Duplicate) (ds : List Duplicate) → nonempty (insert_duplicate d ds) ≡ true
unfolding insert_duplicate
nonempty-insert_duplicate d [] = refl
nonempty-insert_duplicate d (e ∷ es) = ground arith

nonempty-sort_duplicates :
    (f : String → Duplicate) (ks : List String)
    → nonempty (sort_duplicates (map f ks)) ≡ nonempty ks
unfolding sort_duplicates
nonempty-sort_duplicates f [] = refl
nonempty-sort_duplicates f (k ∷ ks) = nonempty-insert_duplicate (f k) (sort_duplicates (map f ks))

-- The two counters agree on a key.
abbrev Agrees : Dict ℕ → Dict ℕ → String → Type 0
Agrees ev sn k = (has ev k ≡ has sn k) × (count_of sn k ≤ count_of ev k)

count-none : (counts : Dict ℕ) (k : String) → has counts k ≡ false → count_of counts k ≡ 0
count-none counts k h = ground arith

clean-compare_counts :
    (ev sn : Dict ℕ)
    → clean (compare_counts ev sn) ≡ (
        not (nonempty (select (λ k. not (has sn k)) (keys ev)))
        && (not (nonempty (select (λ k. not (has ev k)) (keys sn)))
            && not (nonempty (select (is_duplicated ev sn) (keys ev)))))
unfolding clean compare_counts
clean-compare_counts ev sn = cc (
  nonempty-sorted (select (λ k. not (has sn k)) (keys ev)),
  nonempty-sorted (select (λ k. not (has ev k)) (keys sn)),
  nonempty-sort_duplicates (duplicate_of ev sn) (sorted (select (is_duplicated ev sn) (keys ev))),
  nonempty-sorted (select (is_duplicated ev sn) (keys ev)),
)

-- No key of the counter passes the test.
passes-none :
    (p : String → Bool) (counts : Dict ℕ)
    → nonempty (select p (keys counts)) ≡ false
    → (k : String) → has counts k ≡ true
    → p k ≡ false
passes-none p counts h k m = select-none p (keys counts) h k (member-keys k counts ∙ m)

none-passes :
    (p : String → Bool) (counts : Dict ℕ)
    → ((k : String) → has counts k ≡ true → p k ≡ false)
    → nonempty (select p (keys counts)) ≡ false
none-passes p counts h = none-select p (keys counts) (λ k m. h k (sym (member-keys k counts) ∙ m))

Agrees-key :
    (ev sn : Dict ℕ) (k : String)
    → (has ev k ≡ true → not (has sn k) ≡ false)
    → (has sn k ≡ true → not (has ev k) ≡ false)
    → (has ev k ≡ true → is_duplicated ev sn k ≡ false)
    → Agrees ev sn k
Agrees-key ev sn k f g h = elim (Bool-cases (has ev k)) [
  | inl there ↦ (ground (arith, f there), ground (arith, f there, h there))
  | inr gone ↦ elim (Bool-cases (has sn k)) [
    | inl other ↦ cc (rw gone at (g other))
    | inr both ↦ (gone ∙ sym both, omega (arith, count-none ev k gone, count-none sn k both))
  ]
]

clean-Agrees :
    (ev sn : Dict ℕ) → clean (compare_counts ev sn) ≡ true → (k : String) → Agrees ev sn k
clean-Agrees ev sn h k =
    let e = rw clean-compare_counts at h in
    Agrees-key ev sn k (passes-none (λ j. not (has sn j)) ev (ground arith) k)
      (passes-none (λ j. not (has ev j)) sn (ground arith) k)
      (passes-none (is_duplicated ev sn) ev (ground arith) k)

Agrees-clean :
    (ev sn : Dict ℕ) → ((k : String) → Agrees ev sn k) → clean (compare_counts ev sn) ≡ true
Agrees-clean ev sn h =
    let kept = none-passes (λ j. not (has sn j)) ev (λ k there. cc (h k).0) in
    let known = none-passes (λ j. not (has ev j)) sn (λ k there. cc (h k).0) in
    let single = none-passes (is_duplicated ev sn) ev (λ k there. ground (arith, (h k).1)) in
    clean-compare_counts ev sn ∙ rw (kept, known, single) refl

-- ServiceNow has the key if and only if it is in the evidence, and no more often than it occurred.
abbrev pub IsDelivered : List Row → List Row → String → Type 0
IsDelivered evidence servicenow k =
    (ltb 0 (times occurrences_of k evidence) ≡ ltb 0 (times (λ r. 1) k servicenow))
    × (times (λ r. 1) k servicenow ≤ times occurrences_of k evidence)

at_least_one : (r : Row) → 0 < occurrences_of r
unfolding occurrences_of
at_least_one r = ground arith

verdict-clean : (r : Reconciliation) → (verdict r).ok ≡ clean r
unfolding verdict
verdict-clean r = ground arith

Agrees-IsDelivered :
    (evidence servicenow : List Row) (k : String)
    → Agrees (count_keys occurrences_of evidence) (count_keys (λ r. 1) servicenow) k
      ↔ IsDelivered evidence servicenow k
Agrees-IsDelivered evidence servicenow k =
    let e = count_keys-times occurrences_of at_least_one k evidence in
    let f = count_keys-times (λ r. 1) (λ r. omega arith) k servicenow in
    (λ h. (cc (h.0, e.0, f.0), rw (f.1, e.1) at h.1), λ h. (cc (h.0, e.0, f.0), rw (f.1, e.1) h.1))

-- A reconciliation is in order exactly if for each key, counted over the rows that carry it,
-- ServiceNow has it if and only if it is in the evidence, and has it no more often than it occurred.
pub reconcile_exact :
    (evidence servicenow : List Row)
    → ((verdict (reconcile evidence servicenow)).ok ≡ true)
      ↔ ((k : String) → IsDelivered evidence servicenow k)
unfolding reconcile
reconcile_exact evidence servicenow =
    let ev = count_keys occurrences_of evidence in
    let sn = count_keys (λ r. 1) servicenow in
    (
      λ ok k.
          let agrees = clean-Agrees ev sn (sym (verdict-clean (compare_counts ev sn)) ∙ ok) k in
          (Agrees-IsDelivered evidence servicenow k).0 agrees,
      λ delivered.
          verdict-clean (compare_counts ev sn)
          ∙ Agrees-clean ev sn (λ k. (Agrees-IsDelivered evidence servicenow k).1 (delivered k)),
    )

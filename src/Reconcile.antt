-- ===== src/Reconcile.antt =====
-- scripts/reconcile_controls.py: the evidence of control events against what ServiceNow received.
pub mod Exact
mod Tests
use text.Mathlib.Text.{is_lt}
use Prim.Native.String.{compare}
use finchat.Base.{
  ℕ, ◌+◌, ◌-◌, ◌<◌, String, Bool, true, false, ◌&&◌, ◌||◌, not, Option, none, some, List, [], ◌∷◌,
  ◌++◌, map, if◌then◌else◌, ltb, larger, ◌==◌, is_some, select, nonempty, length,
}
use finchat.Base.Dict.{Dict, lookup, insert, get_or}
use finchat.Oauth.Config.{filled}
use finchat.Chat.Events.{sorted}

-- A row of a result, with its key stripped (empty where there is none), and the number in its column
-- of occurrences, if one can be read.
pub record Row : Type 0 where
  pub message_key : String
  pub occurrences : Option ℕ

-- `max(1, int(r.get(count_field) or 1))`, and 1 where it raises.
unfoldable pub occurrences_of : Row → ℕ
occurrences_of r = larger 1 (get_or 1 r.occurrences)

-- `counts[k] += n`; a Counter has 0 for a key that is not there.
unfoldable pub add_to : String → ℕ → Dict ℕ → Dict ℕ
add_to k n counts = insert k (get_or 0 (lookup k counts) + n) counts

-- `count_keys`, for what one row counts.
module _ (weight : Row → ℕ) where
  unfoldable pub tally : List Row → Dict ℕ → Dict ℕ
  unfolding add_to
  tally [] counts = counts
  tally (r ∷ rows) counts =
      tally rows (if filled r.message_key then add_to r.message_key (weight r) counts else counts)

  unfoldable pub count_keys : List Row → Dict ℕ
  unfolding tally
  count_keys rows = tally rows []

pub record Duplicate : Type 0 where
  pub key : String
  pub evidence : ℕ
  pub delivered : ℕ
  pub excess : ℕ

pub record Reconciliation : Type 0 where
  pub matched : List String
  pub dropped : List String
  pub unexplained : List String
  pub duplicated : List Duplicate

abbrev pub keys : Dict ℕ → List String
keys counts = map (λ (e : String × ℕ). e.0) counts

abbrev pub has : Dict ℕ → String → Bool
has counts k = is_some (lookup k counts)

abbrev pub count_of : Dict ℕ → String → ℕ
count_of counts k = get_or 0 (lookup k counts)

unfoldable pub duplicate_of : Dict ℕ → Dict ℕ → String → Duplicate
duplicate_of ev sn k = record {
  key = k;
  evidence = count_of ev k;
  delivered = count_of sn k;
  excess = count_of sn k - count_of ev k;
}

-- The order of `(-d["excess"], d["key"])`.
abbrev pub ahead : Duplicate → Duplicate → Bool
ahead d e = ltb e.excess d.excess || (d.excess == e.excess && not (is_lt (compare e.key d.key)))

unfoldable pub insert_duplicate : Duplicate → List Duplicate → List Duplicate
insert_duplicate d [] = d ∷ []
insert_duplicate d (e ∷ es) =
    let rest = insert_duplicate d es in if ahead d e then d ∷ e ∷ es else e ∷ rest

unfoldable pub sort_duplicates : List Duplicate → List Duplicate
unfolding insert_duplicate
sort_duplicates [] = []
sort_duplicates (d ∷ ds) = insert_duplicate d (sort_duplicates ds)

-- The keys of both that ServiceNow has more often.
abbrev pub is_duplicated : Dict ℕ → Dict ℕ → String → Bool
is_duplicated ev sn k = has sn k && ltb (count_of ev k) (count_of sn k)

unfoldable pub compare_counts : Dict ℕ → Dict ℕ → Reconciliation
unfolding duplicate_of sort_duplicates
compare_counts ev sn = record {
  matched = sorted (select (λ k. has sn k) (keys ev));
  dropped = sorted (select (λ k. not (has sn k)) (keys ev));
  unexplained = sorted (select (λ k. not (has ev k)) (keys sn));
  duplicated =
      sort_duplicates (map (duplicate_of ev sn) (sorted (select (is_duplicated ev sn) (keys ev))));
}

unfoldable pub reconcile : (evidence servicenow : List Row) → Reconciliation
unfolding compare_counts count_keys occurrences_of
reconcile evidence servicenow =
    compare_counts (count_keys occurrences_of evidence) (count_keys (λ r. 1) servicenow)

unfoldable pub clean : Reconciliation → Bool
clean r = not (nonempty r.dropped) && (not (nonempty r.unexplained) && not (nonempty r.duplicated))

-- The summary is left out.
pub record Verdict : Type 0 where
  pub ok : Bool
  pub severity : String

unfoldable pub verdict : Reconciliation → Verdict
unfolding clean
verdict r = if clean r then record { ok = true; severity = "4" } else record {
  ok = false;
  severity =
      if nonempty r.unexplained && (not (nonempty r.matched) && not (nonempty r.dropped))
      then "2"
      else if nonempty r.dropped
      then "2"
      else "3";
}

-- ===== src/Safety/Names.antt =====
-- Python's `sorted` on names, and `sorted(set(...))`.
use Prim.Native.Nat.{Ordering}
use Prim.Native.String.{compare}
use finchat.Base.{Bool, true, false, List, [], ◌∷◌, String, if◌then◌else◌, str_eq}

abbrev before : String → String → Bool
before s n = elim (compare s n) [ Ordering.gt ↦ false | _ ↦ true ]

insert_sorted : String → List String → List String
insert_sorted s [] = s ∷ []
insert_sorted s (n ∷ ns) =
    let rest = insert_sorted s ns in if before s n then s ∷ n ∷ ns else n ∷ rest

unfoldable pub sorted : List String → List String
unfolding insert_sorted
sorted [] = []
sorted (s ∷ ns) = insert_sorted s (sorted ns)

-- The list without a name's second occurrence, for a sorted list.
distinct : List String → List String
distinct [] = []
distinct (s ∷ []) = s ∷ []
distinct (s ∷ n ∷ ns) = let rest = distinct (n ∷ ns) in if str_eq s n then rest else s ∷ rest

unfoldable pub sorted_set : List String → List String
unfolding sorted distinct
sorted_set ns = distinct (sorted ns)

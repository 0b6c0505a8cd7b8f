-- ===== src/Chat/Armor.antt =====
-- ui/armor.py: the reading of Model Armor's answer, and what a screening decides.
use text.Mathlib.Text.{is_lt}
use Prim.Native.String.{compare}
use finchat.Base.{
  ℕ, ◌+◌, String, Bool, true, false, ◌||◌, not, Option, none, some, List, [], ◌∷◌, if◌then◌else◌,
  str_eq,
}
use mathlib.Core.Option

-- A JSON document; of a scalar only a text matters.
mutual
  pub data Node : Type 0 where
    scalar : Node
    words : String → Node
    object : Fields → Node
    array : Items → Node

  pub data Fields : Type 0 where
    end : Fields
    field : String → Node → Fields → Fields

  pub data Items : Type 0 where
    nil : Items
    item : Node → Items → Items

-- `node.get(name)` for a dict, in which a name stands once.
unfoldable pub get : String → Fields → Option Node
get name end = none
get name (field k v fs) = if str_eq k name then some v else get name fs

abbrev pub is_match : Option Node → Bool
is_match (some (words s)) = str_eq s "MATCH_FOUND"
is_match _ = false

unfoldable mutual
  unfolding get

  pub has_match : Node → Bool
  has_match (object fs) = is_match (get "matchState" fs) || any_field fs
  has_match (array xs) = any_item xs
  has_match _ = false

  pub any_field : Fields → Bool
  any_field end = false
  any_field (field k v fs) = has_match v || any_field fs

  pub any_item : Items → Bool
  any_item nil = false
  any_item (item v xs) = has_match v || any_item xs

-- `sorted(set(...))`, name by name.
unfoldable pub insert_sorted : String → List String → List String
insert_sorted s [] = s ∷ []
insert_sorted s (x ∷ xs) =
    let rest = insert_sorted s xs in
    if str_eq s x then x ∷ xs else if is_lt (compare s x) then s ∷ x ∷ xs else x ∷ rest

unfoldable pub sorted_set : List String → List String
unfolding insert_sorted
sorted_set [] = []
sorted_set (x ∷ xs) = insert_sorted x (sorted_set xs)

-- The text without the suffix; none where it does not end with it.
unfoldable pub cut_suffix : String → String → Option String
cut_suffix suffix String.[] = if str_eq suffix "" then some "" else none
cut_suffix suffix (String.◌∷◌ c s) =
    let rest = Option.map (λ r. String.◌∷◌ c r) (cut_suffix suffix s) in
    if str_eq (String.◌∷◌ c s) suffix then some "" else rest

-- The map form: the names whose detector fired.
unfoldable pub names_of_map : Fields → List String
unfolding has_match
names_of_map end = []
names_of_map (field name value fs) =
    let rest = names_of_map fs in if has_match value then name ∷ rest else rest

-- The first key of an entry that ends in "FilterResult", without that suffix.
unfoldable pub first_result : Fields → Option String
unfolding cut_suffix
first_result end = none
first_result (field name value fs) = elim (cut_suffix "FilterResult" name) [
  | some cut ↦ some cut
  | none ↦ first_result fs
]

unfoldable pub result_name : Node → Option String
unfolding first_result
result_name (object fs) = first_result fs
result_name _ = none

abbrev pub or_default : String → Option String → String
or_default s none = s
or_default s (some t) = t

-- What a screening decides; the reason of a failure is left out.
pub record Screening : Type 0 where
  pub allowed : Bool
  pub reason : String
  pub filters : List String

-- `numbered i` is `f"filter_{i}"`.
module _ (numbered : ℕ → String) where
  -- The list form, from an index on.
  unfoldable pub names_of_list : ℕ → Items → List String
  unfolding has_match result_name
  names_of_list i nil = []
  names_of_list i (item value xs) =
      let rest = names_of_list (i + 1) xs in
      if has_match value then or_default (numbered i) (result_name value) ∷ rest else rest

  unfoldable pub names_in : Option Node → List String
  unfolding names_of_map names_of_list
  names_in (some (object fs)) = names_of_map fs
  names_in (some (array xs)) = names_of_list 0 xs
  names_in _ = []

  unfoldable pub matched_filters : Fields → List String
  unfolding names_in sorted_set get
  matched_filters result = sorted_set (names_in (get "filterResults" result))

  -- Behind the call of the service, whose answer holds this `sanitizationResult`.
  unfoldable pub sanitized : Fields → Bool × List String
  unfolding matched_filters get
  sanitized result =
      let flagged = is_match (get "filterMatchState" result) in
      (flagged, if flagged then matched_filters result else [])

  -- `_screen_detailed`; the answer is none where the call raised.
  unfoldable pub screen_detailed : (enabled fail_closed : Bool) → Option Fields → Screening
  unfolding sanitized
  screen_detailed false closed answer = record {
    allowed = true;
    reason = "armor-disabled";
    filters = [];
  }
  screen_detailed true closed none = record {
    allowed = not closed;
    reason = "armor-error";
    filters = [];
  }
  screen_detailed true closed (some result) =
      let (flagged, filters) = sanitized result in
      record {
        allowed = not flagged;
        reason = if flagged then "flagged" else "clean";
        filters = filters;
      }

-- ===== src/Chat/Events.antt =====
-- ui/control_events.py: the envelope of a control event, its correlation key and its route.
use text.Mathlib.Text.{is_lt}
use Prim.Native.String.{compare}
use finchat.Base.{
  String, Bool, true, false, ◌&&◌, ◌||◌, not, Option, none, some, List, [], ◌∷◌, if◌then◌else◌,
  str_eq, member, any,
}
use finchat.Base.Dict.{Dict}
use finchat.Oauth.Config.{filled}

abbrev pub sources : List String
sources = "model_armor" ∷ "dlp" ∷ "composer" ∷ "scc" ∷ "conversation_safety" ∷ []

abbrev pub severities : List String
severities = "INFO" ∷ "WARNING" ∷ "ERROR" ∷ "CRITICAL" ∷ []

abbrev pub filter_classes : Dict (List String)
filter_classes =
    ("security", "pi_and_jailbreak" ∷ "malicious_uris" ∷ [])
    ∷ ("privacy", "sdp" ∷ [])
    ∷ ("content", "rai" ∷ [])
    ∷ []

-- `sorted(...)`
unfoldable pub insert_name : String → List String → List String
insert_name s [] = s ∷ []
insert_name s (x ∷ xs) =
    let rest = insert_name s xs in if is_lt (compare x s) then x ∷ rest else s ∷ x ∷ xs

unfoldable pub sorted : List String → List String
unfolding insert_name
sorted [] = []
sorted (x ∷ xs) = insert_name x (sorted xs)

-- The loop over the classes.
unfoldable pub class_of : List String → Dict (List String) → String
class_of fired [] = "unclassified"
class_of fired ((name, members) ∷ classes) =
    let rest = class_of fired classes in if any (λ m. member m fired) members then name else rest

unfoldable pub filter_class : List String → String
unfolding class_of
filter_class fired = class_of fired filter_classes

-- `":".join([source, control_id, *(p for p in parts if p)])`: the parts that are joined.
unfoldable pub named_parts : List String → List String
named_parts [] = []
named_parts (p ∷ parts) = let rest = named_parts parts in if filled p then p ∷ rest else rest

unfoldable pub message_key : String → String → List String → List String
unfolding named_parts
message_key source control_id parts = source ∷ control_id ∷ named_parts parts

-- The envelope; `message_key` is kept as the parts that ":" joins.
pub record Event : Type 0 where
  pub control_id : String
  pub source : String
  pub environment : String
  pub severity : String
  pub message_key : List String
  pub occurred_at : String
  pub principal_hash : String
  pub evidence_ref : String
  pub filters : List String

abbrev pub or_else : String → Option String → String
or_else d none = d
or_else d (some s) = if filled s then s else d

-- What `build` is given, behind the defaults of its arguments.
pub record Report : Type 0 where
  pub control_id : String
  pub source : String
  pub severity : String
  pub principal : Option String
  pub evidence_ref : Option String
  pub filters : List String
  pub key_parts : List String
  pub environment : Option String

-- `digest` is the salted hash of a principal; `env` and `clock` are `ENV` and the time.
module _ (digest : String → String) (env clock : String) where
  unfoldable pub principal_hash : Option String → String
  principal_hash none = "anonymous"
  principal_hash (some p) = if filled p then digest p else "anonymous"

  -- none where it raises
  unfoldable pub build : Report → Option Event
  unfolding principal_hash message_key sorted
  build r =
      if not (member r.source sources) || not (member r.severity severities)
      then none
      else some (record {
        control_id = r.control_id;
        source = r.source;
        environment = or_else env r.environment;
        severity = r.severity;
        message_key = message_key r.source r.control_id r.key_parts;
        occurred_at = clock;
        principal_hash = principal_hash r.principal;
        evidence_ref = or_else "" r.evidence_ref;
        filters = sorted r.filters;
      })

  -- The event of a block of Model Armor; `direction` is the control's id behind "model_armor.".
  unfoldable pub emit_armor_block :
      String → List String → (principal trace environment : Option String) → Option Event
  unfolding build filter_class principal_hash sorted
  emit_armor_block control_id filters principal trace environment = build (record {
    control_id = control_id;
    source = "model_armor";
    severity = "WARNING";
    principal = principal;
    evidence_ref = trace;
    filters = sorted filters;
    key_parts = principal_hash principal ∷ filter_class (sorted filters) ∷ [];
    environment = environment;
  })

  unfoldable pub emit_safety_signal :
      (control_id cls severity : String)
      → List String
      → (principal : Option String) → (session_key : String) → (trace environment : Option String)
      → Option Event
  unfolding build principal_hash sorted
  emit_safety_signal control_id cls severity filters principal session_key trace environment =
      build (record {
        control_id = control_id;
        source = "conversation_safety";
        severity = severity;
        principal = principal;
        evidence_ref = trace;
        filters = sorted filters;
        key_parts = principal_hash principal ∷ session_key ∷ cls ∷ [];
        environment = environment;
      })

pub record Route : Type 0 where
  pub incident : Bool
  pub priority : Option String
  pub teams : Option String

pub record Rule : Type 0 where
  pub source : String
  pub env : String
  pub route : Route

abbrev pub rule : String → String → Bool → Option String → Option String → Rule
rule source env incident priority teams = record {
  source = source;
  env = env;
  route = record { incident = incident; priority = priority; teams = teams };
}

abbrev pub routing : List Rule
routing =
    rule "model_armor" "prod" true (some "P2") (some "via_sn")
    ∷ rule "model_armor" "*" false none (some "direct")
    ∷ rule "dlp" "prod" true (some "P2") (some "via_sn")
    ∷ rule "dlp" "*" false none (some "direct")
    ∷ rule "composer" "prod" true (some "P3") (some "via_sn")
    ∷ rule "composer" "*" false none (some "direct")
    ∷ rule "scc" "*" false none none
    ∷ rule "conversation_safety" "prod" true (some "P2") (some "via_sn")
    ∷ rule "conversation_safety" "*" false none (some "direct")
    ∷ []

abbrev pub default_route : Route
default_route = record { incident = false; priority = none; teams = none }

unfoldable pub route_by : List Rule → Event → Route
route_by [] e = default_route
route_by (r ∷ rules) e =
    let rest = route_by rules e in
    if str_eq r.source e.source && (str_eq r.env e.environment || str_eq r.env "*")
    then r.route
    else rest

unfoldable pub route : Event → Route
unfolding route_by
route e = route_by routing e

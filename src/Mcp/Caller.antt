-- ===== src/Mcp/Caller.antt =====
-- mcp_server/caller.py: who is calling a tool, and the gate of a staff surface. The lists of e-mails
-- and the registered agents are settings; `lower` and `strip` are functions of Python's library.
pub mod Identity
pub mod Permit
use Prim.Native.Char.{code}
use finchat.Base.{
  ℕ, zero, suc, ◌+◌, String, Bool, true, false, ◌&&◌, ◌||◌, not, Option, none, some, List, [], ◌∷◌,
  if◌then◌else◌, ltb, str_eq, member, length, ◌==◌, drop,
}
use finchat.Base.Dict.{Dict, lookup, insert}
use finchat.Oauth.Config.{Claims, filled, clip}
use finchat.Mcp.Token.{Jwt}
use finchat.Mcp.Auth.{
  Settings, enabled, Kind, user, service, Verified, Outcome, unauthorized, verified, KeySet, Cache,
  verify,
}

pub record Caller : Type 0 where
  pub email : String
  pub kind : Kind
  pub client_id : String
  pub jti : String

-- An entry of the agent registry: the account id that is derived for it, its status and its tools.
pub record Agent : Type 0 where
  pub account_id : String
  pub status : String
  pub tools : List String

pub record Staff : Type 0 where
  pub approver_emails : List String
  pub analyst_emails : List String
  pub admin_emails : List String
  -- `catalog.agents(env)`; none where the registry could not be loaded
  pub agents : String → Option (List Agent)

-- `s[n:]`
unfoldable pub behind : ℕ → String → String
behind zero s = s
behind (suc n) String.[] = ""
behind (suc n) (String.◌∷◌ c s) = behind n s

-- `s.split(sep)` for a separator of one character.
unfoldable pub split_on : ℕ → String → List String
split_on sep String.[] = "" ∷ []
split_on sep (String.◌∷◌ c s) =
    let rest = split_on sep s in
    if code c == sep
    then "" ∷ rest
    else (elim rest [ [] ↦ String.◌∷◌ c "" ∷ [] | word ∷ words ↦ String.◌∷◌ c word ∷ words ])

unfoldable pub persona : Staff → Caller → Option String
persona staff caller = elim caller.kind [
  | service ↦ none
  | user ↦
      if member caller.email staff.admin_emails
      then some "admin"
      else if member caller.email staff.analyst_emails
      then some "analyst"
      else if member caller.email staff.approver_emails
      then some "employee"
      else none
]

-- `persona in ("analyst", "employee", "admin")`
unfoldable pub is_staff : Staff → Caller → Bool
unfolding persona
is_staff staff caller = elim (persona staff caller) [
  | none ↦ false
  | some p ↦ member p ("analyst" ∷ "employee" ∷ "admin" ∷ [])
]

-- The loop over the agents.
unfoldable pub tools_of : String → List Agent → List String
tools_of account [] = []
tools_of account (agent ∷ agents) =
    let rest = tools_of account agents in
    if str_eq agent.status "active" && str_eq agent.account_id account then agent.tools else rest

-- The account is `finchat-<env>-<key>`: the tools of its active registration.
unfoldable pub tools_in : Staff → String → List String → List String
unfolding tools_of
tools_in staff account (product ∷ env ∷ key ∷ more) =
    if str_eq product "finchat"
    then (elim (staff.agents env) [ none ↦ [] | some agents ↦ tools_of account agents ])
    else []
tools_in staff account _ = []

-- `email.split("@")[0]`
unfoldable pub local_part : List String → String
local_part [] = ""
local_part (word ∷ words) = word

unfoldable pub registered_tools : Staff → String → List String
unfolding tools_in split_on local_part
registered_tools staff email =
    let local = local_part (split_on 64 email) in
    if filled email then tools_in staff local (split_on 45 local) else []

abbrev pub cache_size : ℕ
cache_size = 512

-- The verified callers under their tokens' ids; past the size the oldest goes.
unfoldable pub remember : Caller → Dict Caller → Dict Caller
remember caller seen =
    let grown = insert caller.jti caller seen in
    if filled caller.jti
    then (if ltb cache_size (length grown) then drop 1 grown else grown)
    else seen

module _ (jwt : Jwt) (lower strip : String → String) (cfg : Settings) where
  open jwt use {Key}

  -- The state of the process: the key set and the verified callers.
  pub record Memory : Type 0 where
    pub jwks : Cache jwt lower cfg
    pub seen : Dict Caller

  -- `header[7:].strip()` where the header starts with "Bearer ", in any case.
  unfoldable pub bearer : String → Option String
  unfolding behind
  bearer header =
      if str_eq (lower (clip 7 header)) "bearer " then some (strip (behind 7 header)) else none

  -- The id that the token claims, unverified.
  unfoldable pub claimed_id : Option Claims → String
  claimed_id none = ""
  claimed_id (some c) = c.jti

  unfoldable pub caller_of : Verified → Caller
  caller_of v = record {
    email = lower v.email;
    kind = v.kind;
    client_id = v.client_id;
    jti = v.jti;
  }

  -- A caller that was seen before under the id, if there is an id.
  unfoldable pub recalled : String → Dict Caller → Option Caller
  recalled jti seen = if filled jti then lookup jti seen else none

  unfoldable pub identified : Outcome × Cache jwt lower cfg → Dict Caller → Option Caller × Memory
  unfolding remember caller_of
  identified (unauthorized detail, jwks) seen = (none, record { jwks = jwks; seen = seen })
  identified (verified v, jwks) seen =
      (some (caller_of v), record { jwks = jwks; seen = remember (caller_of v) seen })

  -- `current` for a token that came with the request.
  unfoldable pub current_token :
      Option Caller
      → ℕ
      → String
      → (fetch refetch : Option (KeySet jwt lower cfg)) → Memory
      → Option Caller × Memory
  unfolding identified
  current_token (some caller) now token fetch refetch m = (some caller, m)
  current_token none now token fetch refetch m =
      identified (verify jwt lower cfg now token fetch refetch m.jwks) m.seen

  unfoldable pub current_bearer :
      Option String
      → ℕ
      → (fetch refetch : Option (KeySet jwt lower cfg)) → Memory
      → Option Caller × Memory
  unfolding current_token recalled
  current_bearer none now fetch refetch m = (none, m)
  current_bearer (some token) now fetch refetch m =
      current_token (recalled (claimed_id (jwt.unverified token)) m.seen) now token fetch refetch m

  -- `request`: the authorization header of the call's request, or none over stdio.
  unfoldable pub current :
      Option String
      → ℕ
      → (fetch refetch : Option (KeySet jwt lower cfg)) → Memory
      → Option Caller × Memory
  unfolding current_bearer
  current none now fetch refetch m = (none, m)
  current (some header) now fetch refetch m =
      if enabled cfg then current_bearer (bearer header) now fetch refetch m else (none, m)

-- What the gate says: it defers, or permits a caller, or refuses.
pub data Gate : Type 0 where
  deferred : Gate
  permitted : Caller → Gate
  not_permitted : Gate

-- A person has to be staff; a service may be registered for the tool.
unfoldable pub kind_gate : Staff → String → Caller → Kind → Gate
unfolding is_staff registered_tools
kind_gate staff tool who user = if is_staff staff who then permitted who else not_permitted
kind_gate staff tool who service =
    if is_staff staff who || member tool (registered_tools staff who.email)
    then permitted who
    else not_permitted

-- The gate for the caller that was found.
unfoldable pub staff_gate : Staff → String → Option Caller → Gate
unfolding kind_gate
staff_gate staff tool none = not_permitted
staff_gate staff tool (some who) = kind_gate staff tool who who.kind

-- `require_staff`
unfoldable pub require_staff : Settings → Staff → String → Option Caller → Gate
unfolding staff_gate
require_staff cfg staff tool who = if enabled cfg then staff_gate staff tool who else deferred

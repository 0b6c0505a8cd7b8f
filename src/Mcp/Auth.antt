-- ===== src/Mcp/Auth.antt =====
-- mcp_server/auth.py: the settings, the cached key set and `verify`.

pub mod Sound
pub mod Issued
use finchat.Base.{
  ℕ, ◌+◌, String, Bool, true, false, ◌&&◌, ◌||◌, not, Option, none, some, List, [], ◌∷◌,
  if◌then◌else◌, ltb, str_eq, member, nonempty,
}
use finchat.Base.Dict.{Dict, lookup}
use finchat.Oauth.Config.{Claims, filled, rstrip_slash}
use finchat.Mcp.Token.{Jwt, GoogleClaims}

-- `ISSUER` and `RESOURCE` without a slash at their end, `SERVICE_URL`, and the callers that may come
-- as themselves.
pub record Settings : Type 0 where
  pub issuer : String
  pub resource : String
  pub service_url : String
  pub service_callers : List String
  pub jwks_ttl : ℕ

abbrev pub leeway : ℕ
leeway = 60

unfoldable pub enabled : Settings → Bool
enabled cfg = filled cfg.issuer && filled cfg.resource

pub data Kind : Type 0 where
  user : Kind
  service : Kind

-- The claims that a caller of `verify` reads.
pub record Verified : Type 0 where
  pub email : String
  pub kind : Kind
  pub client_id : String
  pub jti : String

pub data Outcome : Type 0 where
  -- `Unauthorized`, with its detail
  unauthorized : String → Outcome
  verified : Verified → Outcome

module _ (jwt : Jwt) (lower : String → String) (cfg : Settings) where
  open jwt use {Key}

  abbrev pub KeySet : Type 0
  KeySet = Dict Key

  -- `_jwks`: until when the key set is used, and the keys.
  abbrev pub Cache : Type 0
  Cache = Option (ℕ × KeySet)

  -- The part of `_keys` behind a fetch, which gave the published keys or raised.
  unfoldable pub fetched_keys : ℕ → Option KeySet → Cache → Option KeySet × Cache
  fetched_keys now none cache = (none, cache)
  fetched_keys now (some keys) cache =
      if nonempty keys then (some keys, some (now + cfg.jwks_ttl, keys)) else (none, cache)

  -- `_keys`, with what a fetch would give; none where it raises.
  unfoldable pub keys : Bool → ℕ → Option KeySet → Cache → Option KeySet × Cache
  unfolding fetched_keys
  keys force now fetch none = fetched_keys now fetch none
  keys force now fetch (some (until, held)) =
      if not force && ltb now until
      then (some held, some (until, held))
      else fetched_keys now fetch (some (until, held))

  -- `_verify_google_service`, for the claims that Google's library verified.
  unfoldable pub google_service : Option GoogleClaims → Outcome
  google_service none = unauthorized "google"
  google_service (some c) =
      if not c.email_verified || not (member (lower c.email) cfg.service_callers)
      then unauthorized "service identity is not permitted"
      else verified
          (record { email = c.email; kind = service; client_id = c.client_id; jti = c.jti })

  unfoldable pub verify_google_service : ℕ → String → Outcome
  unfolding google_service
  verify_google_service now token =
      if not (nonempty cfg.service_callers)
      then unauthorized "no service callers are permitted"
      else google_service (jwt.google cfg.service_url now token)

  -- The claims that the key verified.
  unfoldable pub of_claims : Option Claims → Outcome
  of_claims none = unauthorized "not decoded"
  of_claims (some c) =
      if not (filled c.email)
      then unauthorized "token carries no identity"
      else verified (record { email = c.email; kind = user; client_id = c.client_id; jti = c.jti })

  -- The key of the token's key id, and the rest of `verify`.
  unfoldable pub verify_with : Option Key → ℕ → String → Outcome
  unfolding of_claims
  verify_with none now token = unauthorized "token signed by an unknown key"
  verify_with (some key) now token =
      of_claims (jwt.decode key cfg.resource cfg.issuer leeway now token)

  -- After the forced refresh.
  unfoldable pub verify_refreshed : String → ℕ → String → Option KeySet × Cache → Outcome × Cache
  unfolding verify_with
  verify_refreshed kid now token (none, cache) = (unauthorized "jwks unavailable", cache)
  verify_refreshed kid now token (some held, cache) =
      (verify_with (lookup kid held) now token, cache)

  -- After the first look at the keys: one forced refresh where the key is not there.
  unfoldable pub verify_held :
      String → ℕ → String → Option KeySet → Option KeySet × Cache → Outcome × Cache
  unfolding verify_refreshed verify_with keys
  verify_held kid now token refetch (none, cache) = (unauthorized "jwks unavailable", cache)
  verify_held kid now token refetch (some held, cache) = elim (lookup kid held) [
    | some key ↦ (verify_with (some key) now token, cache)
    | none ↦ verify_refreshed kid now token (keys true now refetch cache)
  ]

  -- The route of a person's token.
  unfoldable pub verify_user :
      Option String → ℕ → String → (fetch refetch : Option KeySet) → Cache → Outcome × Cache
  unfolding verify_held keys
  verify_user none now token fetch refetch cache = (unauthorized "token has no key id", cache)
  verify_user (some kid) now token fetch refetch cache =
      if filled kid
      then verify_held kid now token refetch (keys false now fetch cache)
      else (unauthorized "token has no key id", cache)

  -- The route is chosen by the issuer that the token claims.
  unfoldable pub verify_routed :
      Option (Option String)
      → Option Claims
      → ℕ
      → String
      → (fetch refetch : Option KeySet) → Cache
      → Outcome × Cache
  unfolding verify_user verify_google_service
  verify_routed none claims now token fetch refetch cache = (unauthorized "malformed token", cache)
  verify_routed (some kid) none now token fetch refetch cache =
      (unauthorized "malformed token", cache)
  verify_routed (some kid) (some c) now token fetch refetch cache =
      if str_eq (rstrip_slash c.iss) cfg.issuer
      then verify_user kid now token fetch refetch cache
      else (verify_google_service now token, cache)

  -- `fetch` and `refetch` are what the first and the forced fetch of the keys would give.
  unfoldable pub verify : ℕ → String → (fetch refetch : Option KeySet) → Cache → Outcome × Cache
  unfolding verify_routed
  verify now token fetch refetch cache =
      if not (enabled cfg)
      then (unauthorized "OAuth is not configured on this server", cache)
      else if not (filled token)
      then (unauthorized "no bearer token", cache)
      else verify_routed (jwt.header token) (jwt.unverified token) now token fetch refetch cache

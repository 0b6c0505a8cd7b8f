-- ===== src/Oauth/Requests.antt =====
-- What the requests of products/mcp_auth/main.py carry, and their checks: each is a function of
-- the request and the deployment alone.
use finchat.Base.{
  ℕ, ◌+◌, String, ◌&&◌, ◌||◌, not, ◌⊎◌, inl, inr, Option, none, some, List, [], ◌∷◌, if◌then◌else◌,
  ltb, str_eq, member, nonempty, all, length,
}
use finchat.Base.Dict.{Dict}
use finchat.Oauth.Store.{Code, Grant}
use finchat.Oauth.Config.{
  Library, Config, Registration, Claims, clip, Identity, pending_ttl, filled, rstrip_slash,
  usable_redirect, granted_scope,
}

-- An authorize request that waits for Google.
pub record Pending : Type 0 where
  pub client_id : String
  pub redirect_uri : String
  pub code_challenge : String
  pub state : String
  pub resource : String
  pub scope : List String
  pub expires_at : ℕ

pub record AuthorizeRequest : Type 0 where
  pub client_id : String
  pub redirect_uri : String
  pub response_type : String
  pub code_challenge : String
  pub code_challenge_method : String
  pub state : String
  pub scope : List String
  pub resource : String

pub record TokenRequest : Type 0 where
  pub grant_type : String
  pub code : String
  pub redirect_uri : String
  pub client_id : String
  pub code_verifier : String
  pub refresh_token : String
  pub resource : String

-- The random values of a token response: the token's id and the next refresh token.
pub record Fresh : Type 0 where
  pub jti : String
  pub refresh : String

-- `oauth.access_token`
unfoldable pub access_claims :
    Config → (subject email audience client_id : String) → List String → ℕ → String → Claims
access_claims cfg subject email audience client_id scope now jti = record {
  iss = cfg.issuer;
  sub = subject;
  aud = audience;
  email = email;
  client_id = client_id;
  scope = scope;
  iat = now;
  exp = now + cfg.access_ttl;
  jti = jti;
}

-- The checks behind the validated redirect, in order; none where all pass.
unfoldable pub authorize_error : Config → AuthorizeRequest → Option String
authorize_error cfg r =
    let target = rstrip_slash r.resource in
    if not (str_eq r.response_type "code")
    then some "unsupported_response_type"
    else if not (str_eq r.code_challenge_method "S256") || not (filled r.code_challenge)
    then some "invalid_request"
    else if not (filled target)
    then some "invalid_target"
    else if not (member target cfg.allowed_resources)
    then some "invalid_target"
    else if not (filled cfg.google_client_id && filled cfg.google_client_secret)
    then some "temporarily_unavailable"
    else if not (nonempty cfg.allowed_domains || nonempty cfg.allowed_emails)
    then some "access_denied"
    else none

unfoldable pub pending_of : AuthorizeRequest → ℕ → Pending
pending_of r now = record {
  client_id = r.client_id;
  redirect_uri = r.redirect_uri;
  code_challenge = r.code_challenge;
  state = r.state;
  resource = rstrip_slash r.resource;
  scope = granted_scope r.scope;
  expires_at = now + pending_ttl;
}

-- The loop that drops the expired requests.
unfoldable pub drop_expired : ℕ → Dict Pending → Dict Pending
drop_expired now [] = []
drop_expired now ((k, p) ∷ rest) =
    let kept = drop_expired now rest in if ltb p.expires_at now then kept else (k, p) ∷ kept

-- `(claims.get("hd") or email.rpartition("@")[2]).lower()`
abbrev pub domain_of : Library → Identity → String → String
domain_of lib who email = lib.lower (if filled who.hd then who.hd else lib.behind_at email)

-- The gate of the callback: whether the identity may come in, or the reason against it.
unfoldable pub identity_error : Library → Config → Identity → Option String
identity_error lib cfg who =
    let email = lib.lower who.email in
    if not who.email_verified
    then some "email not verified"
    else if not (member email cfg.allowed_emails)
        && not (member (domain_of lib who email) cfg.allowed_domains)
    then some "this identity is not permitted"
    else none

abbrev or_email : String → Option String → String
or_email email none = email
or_email email (some sub) = sub

unfoldable pub code_of : Library → Config → Pending → Identity → ℕ → Code
code_of lib cfg p who now = record {
  client_id = p.client_id;
  redirect_uri = p.redirect_uri;
  code_challenge = p.code_challenge;
  email = lib.lower who.email;
  subject = or_email (lib.lower who.email) who.sub;
  resource = p.resource;
  scope = p.scope;
  expires_at = now + cfg.code_ttl;
}

unfoldable pub grant_of_code : Config → Code → ℕ → Grant
grant_of_code cfg c now = record {
  client_id = c.client_id;
  email = c.email;
  subject = c.subject;
  resource = c.resource;
  scope = c.scope;
  expires_at = now + cfg.refresh_ttl;
}

-- The checks of a registration: the URIs, or the error.
unfoldable pub checked_uris : Library → Registration → String ⊎ List String
checked_uris lib body = elim body.redirect_uris [
  | none ↦ inl "invalid_redirect_uri"
  | some uris ↦
      if not (nonempty uris)
      then inl "invalid_redirect_uri"
      else if ltb 8 (length uris)
      then inl "invalid_redirect_uri"
      else if not (all (usable_redirect lib) uris)
      then inl "invalid_redirect_uri"
      else inr uris
]

abbrev pub named : String → String
named name = clip 120 (if filled name then name else "unnamed")

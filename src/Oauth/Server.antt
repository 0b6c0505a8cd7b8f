-- ===== src/Oauth/Server.antt =====
-- The endpoints of products/mcp_auth/main.py: registration, authorization, Google's callback and
-- the token endpoint. A request reads the clock once; random values are arguments.
pub mod Gates
pub mod Tokens
pub mod Rotation
pub mod Confined
pub mod Serve
use finchat.Base.{
  ℕ, ◌+◌, String, Bool, ◌||◌, not, inl, inr, Option, none, some, if◌then◌else◌, ltb, str_eq,
}
use finchat.Base.Dict.{Dict, lookup, insert, erase}
use finchat.Oauth.Documents.{Collection}
use finchat.Oauth.Store.{
  Client, Code, Grant, Table, put, put_refresh, take_code, take_refresh, get_client,
  prune_probe_clients,
}
use finchat.Oauth.Requests.{
  Pending, AuthorizeRequest, TokenRequest, Fresh, access_claims, authorize_error, pending_of,
  drop_expired, identity_error, code_of, grant_of_code, checked_uris, named,
}
use finchat.Oauth.Config.{
  Library, Config, Registration, Claims, Identity, Response, probe_client_name, probe_client_ttl,
  filled, rstrip_slash, redirect_ok, fail, created, back_error, to_google, back_code, issued,
}

module _ (lib : Library) (cfg : Config) (durable : Bool) (clients : Collection Client)
    (codes : Collection Code) (refresh : Collection Grant) where
  pub record Server : Type 0 where
    pub client_table : Table clients
    pub code_table : Table codes
    pub refresh_table : Table refresh
    pub pending : Dict Pending

  -- A new client is stored; a registration of the live checker also drops the old ones.
  pub store_client : String → Client → ℕ → Server → Server
  store_client client_id client now s =
      let table = put clients durable client_id client s.client_table in
      record s {
        client_table =
            if str_eq client.client_name probe_client_name
            then (prune_probe_clients clients durable probe_client_name probe_client_ttl now
                table).1
            else table;
      }

  -- `register`; no body where the request holds no JSON. `client_id` is drawn anew.
  unfoldable pub register : Option Registration → String → ℕ → Server → Response × Server
  unfolding store_client
  register none client_id now s = (fail 400 "invalid_client_metadata", s)
  register (some body) client_id now s = elim (checked_uris lib body) [
    | inl error ↦ (fail 400 error, s)
    | inr uris ↦
        let client : Client = record {
          client_name = named body.client_name;
          redirect_uris = uris;
          created_at = now;
        } in
        (created client_id client, store_client client_id client now s)
  ]

  -- `STORE.get_client(client_id) if client_id else None`
  pub find_client : String → Server → Option Client × Server
  find_client client_id s =
      if filled client_id
      then (let (client, table) = get_client clients durable client_id s.client_table in
          (client, record s { client_table = table }))
      else (none, s)

  -- The part of `authorize` behind the validated redirect.
  pub authorize_client : AuthorizeRequest → String → ℕ → Server → Response × Server
  authorize_client r nonce now s = elim (authorize_error cfg r) [
    | some error ↦ (back_error r.redirect_uri error r.state, s)
    | none ↦ (
      to_google nonce,
      record s { pending = drop_expired now (insert nonce (pending_of r now) s.pending) },
    )
  ]

  -- The client decides whether an error may be sent back to the redirect URI at all.
  pub authorize_found : Option Client → AuthorizeRequest → String → ℕ → Server → Response × Server
  authorize_found none r nonce now s = (fail 400 "invalid_client", s)
  authorize_found (some client) r nonce now s =
      if redirect_ok r.redirect_uri client.redirect_uris
      then authorize_client r nonce now s
      else (fail 400 "invalid_request", s)

  unfoldable pub authorize : AuthorizeRequest → String → ℕ → Server → Response × Server
  unfolding find_client authorize_found authorize_client
  authorize r nonce now s =
      let (client, s') = find_client r.client_id s in authorize_found client r nonce now s'

  -- The part of `callback` behind Google's answer; no identity where it could not be verified.
  pub callback_identity : Pending → Option Identity → String → ℕ → Server → Response × Server
  callback_identity p none code now s = (back_error p.redirect_uri "access_denied" p.state, s)
  callback_identity p (some who) code now s = elim (identity_error lib cfg who) [
    | some reason ↦ (back_error p.redirect_uri "access_denied" p.state, s)
    | none ↦ (
      back_code p.redirect_uri code p.state,
      record s { code_table = put codes durable code (code_of lib cfg p who now) s.code_table },
    )
  ]

  pub callback_pending :
      Option Pending → Bool → Option Identity → String → ℕ → Server → Response × Server
  callback_pending none answered who code now s = (fail 400 "invalid_request", s)
  callback_pending (some p) answered who code now s =
      if ltb p.expires_at now
      then (fail 400 "invalid_request", s)
      else if answered
      then callback_identity p who code now s
      else (back_error p.redirect_uri "access_denied" p.state, s)

  -- `answered`: Google sent a code and no error. `code` is drawn anew. The pending request is
  -- dropped first, on every branch.
  unfoldable pub callback :
      String → Bool → Option Identity → String → ℕ → Server → Response × Server
  unfolding callback_pending callback_identity
  callback state answered who code now s =
      callback_pending (lookup state s.pending) answered who code now
        (record s { pending = erase state s.pending })

  -- A new refresh token beside an access token.
  pub issue : Claims → String → Grant → Server → Response × Server
  issue claims token grant s = (
    issued claims cfg.access_ttl token grant.scope,
    record s { refresh_table = put_refresh lib.digest refresh durable token grant s.refresh_table },
  )

  abbrev pub claims_of_code : Code → ℕ → String → Claims
  claims_of_code c now jti =
      access_claims cfg c.subject c.email c.resource c.client_id c.scope now jti

  -- The comparison of the challenge; an exception of `s256` is an HTTP 500.
  pub exchange_proved : Code → Option String → Fresh → ℕ → Server → Response × Server
  unfolding issue
  exchange_proved c none fresh now s = (fail 500 "Internal Server Error", s)
  exchange_proved c (some challenge) fresh now s =
      if not (str_eq challenge c.code_challenge)
      then (fail 400 "invalid_grant", s)
      else issue (claims_of_code c now fresh.jti) fresh.refresh (grant_of_code cfg c now) s

  pub exchange_code : Option Code → TokenRequest → Fresh → ℕ → Server → Response × Server
  unfolding exchange_proved
  exchange_code none r fresh now s = (fail 400 "invalid_grant", s)
  exchange_code (some c) r fresh now s =
      if not (str_eq c.client_id r.client_id) || not (str_eq c.redirect_uri r.redirect_uri)
      then (fail 400 "invalid_grant", s)
      else if not (filled r.code_verifier)
      then (fail 400 "invalid_grant", s)
      else exchange_proved c (lib.s256 r.code_verifier) fresh now s

  -- `(resource or held["resource"]).rstrip("/")`
  abbrev pub target_of : TokenRequest → Grant → String
  target_of r g = rstrip_slash (if filled r.resource then r.resource else g.resource)

  pub rotate : Option Grant → TokenRequest → Fresh → ℕ → Server → Response × Server
  unfolding issue
  rotate none r fresh now s = (fail 400 "invalid_grant", s)
  rotate (some g) r fresh now s =
      if not (str_eq g.client_id r.client_id)
      then (fail 400 "invalid_grant", s)
      else if not (str_eq (target_of r g) g.resource)
      then (fail 400 "invalid_target", s)
      else issue (access_claims cfg g.subject g.email g.resource r.client_id g.scope now fresh.jti)
          fresh.refresh (record g { expires_at = now + cfg.refresh_ttl }) s

  -- The code is taken before it is looked at.
  pub token_code : TokenRequest → Fresh → ℕ → Server → Response × Server
  unfolding exchange_code
  token_code r fresh now s =
      if filled r.code
      then (let (found, table) = take_code codes durable r.code now s.code_table in
          exchange_code found r fresh now (record s { code_table = table }))
      else exchange_code none r fresh now s

  -- The refresh token is consumed whether or not the call succeeds.
  pub token_refresh : TokenRequest → Fresh → ℕ → Server → Response × Server
  unfolding rotate
  token_refresh r fresh now s =
      if filled r.refresh_token
      then (let (held, table) =
            take_refresh lib.digest refresh durable r.refresh_token now s.refresh_table in
          rotate held r fresh now (record s { refresh_table = table }))
      else rotate none r fresh now s

  unfoldable pub token : TokenRequest → Fresh → ℕ → Server → Response × Server
  unfolding token_code token_refresh
  token r fresh now s =
      if str_eq r.grant_type "authorization_code"
      then token_code r fresh now s
      else if str_eq r.grant_type "refresh_token"
      then token_refresh r fresh now s
      else (fail 400 "unsupported_grant_type", s)

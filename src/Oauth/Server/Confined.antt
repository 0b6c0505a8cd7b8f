-- ===== src/Oauth/Server/Confined.antt =====
-- The records of the server that can become a token are for allowed resources, and the token
-- endpoint keeps that.
use finchat.Base.{
  ℕ, ◌+◌, ◌≡◌, String, Bool, true, Option, none, some, member, not, str_eq, if-intro, ◌||◌,
}
use finchat.Oauth.Documents.{Collection}
use finchat.Oauth.Store.{Client, Code, Grant, take_code, take_refresh, put_refresh, take_record}
use finchat.Oauth.Store.Confined.{
  Every, OfSome, TableEvery, put-TableEvery, take_record-TableEvery, unexpired-OfSome,
}
use finchat.Oauth.Config.{Library, Config, Claims, Response, fail, issued, filled}
use finchat.Oauth.Requests.{Pending, TokenRequest, Fresh, grant_of_code, access_claims}
use finchat.Oauth.Server.{
  Server, token, token_code, token_refresh, exchange_proved, exchange_code, rotate, issue,
  claims_of_code, target_of,
}

module _ (lib : Library) (cfg : Config) (durable : Bool) (clients : Collection Client)
    (codes : Collection Code) (refresh : Collection Grant) where
  abbrev pub Allowed : String → Type 0
  Allowed resource = member resource cfg.allowed_resources ≡ true

  abbrev pub CodeAllowed : Code → Type 0
  CodeAllowed c = Allowed c.resource

  abbrev pub GrantAllowed : Grant → Type 0
  GrantAllowed g = Allowed g.resource

  abbrev pub PendingAllowed : Pending → Type 0
  PendingAllowed p = Allowed p.resource

  -- Each record that can become a token is for an allowed resource.
  pub record IsConfined (s : Server lib cfg durable clients codes refresh) : Type 0 where
    pub in_codes : TableEvery CodeAllowed codes s.code_table
    pub in_grants : TableEvery GrantAllowed refresh s.refresh_table
    pub in_pending : Every PendingAllowed s.pending

  -- An answer that issues a token issues it for an allowed resource.
  abbrev pub Confines : Response → Type 0
  Confines (issued claims ttl next scope) = Allowed claims.aud
  Confines _ = Unit

  pub record Good (answer : Response × Server lib cfg durable clients codes refresh) : Type 0 where
    pub confines : Confines answer.0
    pub confined : IsConfined answer.1

  pub refused :
      (status : ℕ) (error : String) (s : Server lib cfg durable clients codes refresh)
      → IsConfined s
      → Good (fail status error, s)
  refused status error s h = record { confines = tt; confined = h }

  issue-Good :
      (claims : Claims) (next : String) (g : Grant)
      (s : Server lib cfg durable clients codes refresh)
      → Allowed claims.aud
      → Allowed g.resource
      → IsConfined s
      → Good (issue lib cfg durable clients codes refresh claims next g s)
  unfolding issue put_refresh
  issue-Good claims next g s aud ok h = record {
    confines = aud;
    confined = record {
      in_codes = h.in_codes;
      in_grants =
          put-TableEvery GrantAllowed refresh durable (lib.digest next) g s.refresh_table ok
            h.in_grants;
      in_pending = h.in_pending;
    };
  }

  exchange_proved-Good :
      (c : Code) (challenge : Option String) (fresh : Fresh) (now : ℕ)
      (s : Server lib cfg durable clients codes refresh)
      → CodeAllowed c
      → IsConfined s
      → Good (exchange_proved lib cfg durable clients codes refresh c challenge fresh now s)
  unfolding exchange_proved grant_of_code access_claims
  exchange_proved-Good c none fresh now s ok h = refused 500 "Internal Server Error" s h
  exchange_proved-Good c (some challenge) fresh now s ok h =
      if-intro Good (not (str_eq challenge c.code_challenge)) (refused 400 "invalid_grant" s h) (
        issue-Good (claims_of_code lib cfg durable clients codes refresh c now fresh.jti)
          fresh.refresh (grant_of_code cfg c now) s ok ok h)

  exchange_code-Good :
      (found : Option Code) (r : TokenRequest) (fresh : Fresh) (now : ℕ)
      (s : Server lib cfg durable clients codes refresh)
      → OfSome CodeAllowed found
      → IsConfined s
      → Good (exchange_code lib cfg durable clients codes refresh found r fresh now s)
  unfolding exchange_code
  exchange_code-Good none r fresh now s ok h = refused 400 "invalid_grant" s h
  exchange_code-Good (some c) r fresh now s ok h =
      if-intro Good
        (not (str_eq c.client_id r.client_id) || not (str_eq c.redirect_uri r.redirect_uri))
        (refused 400 "invalid_grant" s h)
        (if-intro Good (not (filled r.code_verifier)) (refused 400 "invalid_grant" s h)
          (exchange_proved-Good c (lib.s256 r.code_verifier) fresh now s ok h))

  rotate-Good :
      (held : Option Grant) (r : TokenRequest) (fresh : Fresh) (now : ℕ)
      (s : Server lib cfg durable clients codes refresh)
      → OfSome GrantAllowed held
      → IsConfined s
      → Good (rotate lib cfg durable clients codes refresh held r fresh now s)
  unfolding rotate access_claims
  rotate-Good none r fresh now s ok h = refused 400 "invalid_grant" s h
  rotate-Good (some g) r fresh now s ok h =
      if-intro Good (not (str_eq g.client_id r.client_id)) (refused 400 "invalid_grant" s h) (
        if-intro Good
          (not (str_eq (target_of lib cfg durable clients codes refresh r g) g.resource))
          (refused 400 "invalid_target" s h)
          (issue-Good
            (access_claims cfg g.subject g.email g.resource r.client_id g.scope now fresh.jti)
            fresh.refresh (record g { expires_at = now + cfg.refresh_ttl }) s ok ok h))

  token_code-Good :
      (r : TokenRequest) (fresh : Fresh) (now : ℕ)
      (s : Server lib cfg durable clients codes refresh)
      → IsConfined s
      → Good (token_code lib cfg durable clients codes refresh r fresh now s)
  unfolding token_code take_code
  token_code-Good r fresh now s h =
      let taken = take_record-TableEvery CodeAllowed codes durable r.code s.code_table h.in_codes in
      if-intro Good (filled r.code)
        (exchange_code-Good _ r fresh now
          (record s { code_table = (take_record codes durable r.code s.code_table).1 })
          (unexpired-OfSome CodeAllowed (λ c. c.expires_at) now _ taken.0)
          (record { in_codes = taken.1; in_grants = h.in_grants; in_pending = h.in_pending }))
        (exchange_code-Good none r fresh now s tt h)

  token_refresh-Good :
      (r : TokenRequest) (fresh : Fresh) (now : ℕ)
      (s : Server lib cfg durable clients codes refresh)
      → IsConfined s
      → Good (token_refresh lib cfg durable clients codes refresh r fresh now s)
  unfolding token_refresh take_refresh
  token_refresh-Good r fresh now s h =
      let key = lib.digest r.refresh_token in
      let taken =
        take_record-TableEvery GrantAllowed refresh durable key s.refresh_table h.in_grants in
      if-intro Good (filled r.refresh_token)
        (rotate-Good _ r fresh now
          (record s { refresh_table = (take_record refresh durable key s.refresh_table).1 })
          (unexpired-OfSome GrantAllowed (λ g. g.expires_at) now _ taken.0)
          (record { in_codes = h.in_codes; in_grants = taken.1; in_pending = h.in_pending }))
        (rotate-Good none r fresh now s tt h)

  pub token-Good :
      (r : TokenRequest) (fresh : Fresh) (now : ℕ)
      (s : Server lib cfg durable clients codes refresh)
      → IsConfined s
      → Good (token lib cfg durable clients codes refresh r fresh now s)
  unfolding token
  token-Good r fresh now s h =
      if-intro Good (str_eq r.grant_type "authorization_code") (token_code-Good r fresh now s h) (
        if-intro Good (str_eq r.grant_type "refresh_token") (token_refresh-Good r fresh now s h)
          (refused 400 "unsupported_grant_type" s h))

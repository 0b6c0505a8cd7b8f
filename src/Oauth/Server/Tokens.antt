-- ===== src/Oauth/Server/Tokens.antt =====
-- What the token endpoint hands out, and for what.
use finchat.Base.{
  ℕ, ◌+◌, ◌≤◌, ◌≡◌, refl, ◌⊎◌, inl, inr, String, Bool, true, false, ◌||◌, not, Option, none, some,
  arith, Bool-cases, if-cases, str_eq, if◌then◌else◌, eq_iff,
}
use finchat.Oauth.Documents.{Collection}
use finchat.Oauth.Store.{
  Client, Code, Grant, Table, take_code, take_refresh, unexpired, take_record,
}
use finchat.Oauth.Config.{Library, Config, Response, filled, rstrip_slash, fail, issued}
use finchat.Oauth.Requests.{TokenRequest, Fresh, access_claims, grant_of_code}
use finchat.Oauth.Server.{
  Server, token, token_code, token_refresh, exchange_proved, exchange_code, rotate, issue,
  claims_of_code, target_of,
}

unexpired-le :
    {A : Type 0} (expires : A → ℕ) (now : ℕ) (o : Option A) (a : A)
    → unexpired expires now o ≡ some a
    → now ≤ expires a
unexpired-le expires now none a e = cc
unexpired-le expires now (some b) a e = ground arith

module _ (lib : Library) (cfg : Config) (durable : Bool) (clients : Collection Client)
    (codes : Collection Code) (refresh : Collection Grant) where
  -- The answer to the exchange of a code, for the record that was taken.
  abbrev pub IsExchange : Option Code → TokenRequest → ℕ → Response → Type 0
  IsExchange found r now (fail status error) =
      ((status ≡ 400) × (error ≡ "invalid_grant"))
      ⊎ ((status ≡ 500) × (filled r.code_verifier ≡ true) × (lib.s256 r.code_verifier ≡ none))
  IsExchange found r now (issued claims ttl next scope) =
      (c : Code) × (found ≡ some c)
      × (c.client_id ≡ r.client_id)
      × (c.redirect_uri ≡ r.redirect_uri)
      × (filled r.code_verifier ≡ true)
      × (lib.s256 r.code_verifier ≡ some c.code_challenge)
      × (claims ≡ claims_of_code lib cfg durable clients codes refresh c now claims.jti)
      × (ttl ≡ cfg.access_ttl)
      × (scope ≡ c.scope)
  IsExchange found r now _ = ⊥

  record Exchanged (found : Option Code) (r : TokenRequest) (now : ℕ)
      (x : Response × Server lib cfg durable clients codes refresh) : Type 0 where
    exchanged : IsExchange found r now x.0

  exchange_proved-Exchanged :
      (c : Code) (r : TokenRequest) (fresh : Fresh) (now : ℕ)
      (s : Server lib cfg durable clients codes refresh) (challenge : Option String)
      → lib.s256 r.code_verifier ≡ challenge
      → c.client_id ≡ r.client_id
      → c.redirect_uri ≡ r.redirect_uri
      → filled r.code_verifier ≡ true
      → Exchanged
          (some c)
          r
          now
          (exchange_proved lib cfg durable clients codes refresh c challenge fresh now s)
  unfolding exchange_proved issue
  exchange_proved-Exchanged c r fresh now s none e client uri given = record {
    exchanged = inr (refl, given, e);
  }
  exchange_proved-Exchanged c r fresh now s (some challenge) e client uri given =
      if-cases (Exchanged (some c) r now) (not (str_eq challenge c.code_challenge))
        (λ other. record { exchanged = inl (refl, refl) })
        (λ same.
          let proved : challenge ≡ c.code_challenge =
            ground (arith, eq_iff challenge c.code_challenge) in
          record {
            exchanged = (
              c,
              refl,
              client,
              uri,
              given,
              cc (e, proved),
              unfold access_claims in refl,
              refl,
              unfold grant_of_code in refl,
            );
          })

  exchange_code-IsExchange :
      (found : Option Code) (r : TokenRequest) (fresh : Fresh) (now : ℕ)
      (s : Server lib cfg durable clients codes refresh)
      → IsExchange found r now
          (exchange_code lib cfg durable clients codes refresh found r fresh now s).0
  unfolding exchange_code
  exchange_code-IsExchange none r fresh now s = inl (refl, refl)
  exchange_code-IsExchange (some c) r fresh now s =
      (if-cases (Exchanged (some c) r now)
        (not (str_eq c.client_id r.client_id) || not (str_eq c.redirect_uri r.redirect_uri))
        (λ other. record { exchanged = inl (refl, refl) })
        (λ same.
          let client : c.client_id ≡ r.client_id = ground (arith, eq_iff c.client_id r.client_id) in
          let uri : c.redirect_uri ≡ r.redirect_uri =
            ground (arith, eq_iff c.redirect_uri r.redirect_uri) in
          if-cases (Exchanged (some c) r now) (not (filled r.code_verifier))
            (λ empty. record { exchanged = inl (refl, refl) })
            (λ given.
              exchange_proved-Exchanged c r fresh now s _ refl client uri
                (ground arith)))).exchanged

  -- The answer to a refresh, for the grant that was taken.
  abbrev pub IsRefresh : Option Grant → TokenRequest → ℕ → Response → Type 0
  IsRefresh held r now (fail status error) = status ≡ 400
  IsRefresh held r now (issued claims ttl next scope) =
      (g : Grant) × (held ≡ some g)
      × (g.client_id ≡ r.client_id)
      × (claims ≡ access_claims cfg g.subject g.email g.resource r.client_id g.scope now claims.jti)
      × (rstrip_slash (if filled r.resource then r.resource else g.resource) ≡ g.resource)
      × (ttl ≡ cfg.access_ttl)
      × (scope ≡ g.scope)
  IsRefresh held r now _ = ⊥

  rotate-IsRefresh :
      (held : Option Grant) (r : TokenRequest) (fresh : Fresh) (now : ℕ)
      (s : Server lib cfg durable clients codes refresh)
      → IsRefresh held r now (rotate lib cfg durable clients codes refresh held r fresh now s).0
  unfolding rotate issue
  rotate-IsRefresh none r fresh now s = refl
  rotate-IsRefresh (some g) r fresh now s = go _ _ refl refl
    where
      target : String
      target = target_of lib cfg durable clients codes refresh r g

      go :
          (a b : Bool)
          → not (str_eq g.client_id r.client_id) ≡ a
          → not (str_eq target g.resource) ≡ b
          → IsRefresh
              (some g)
              r
              now
              (if a
                then (fail 400 "invalid_grant", s)
                else if b
                then (fail 400 "invalid_target", s)
                else issue lib cfg durable clients codes refresh
                    (access_claims cfg g.subject g.email g.resource r.client_id g.scope now
                      fresh.jti)
                    fresh.refresh
                    (record g { expires_at = now + cfg.refresh_ttl })
                    s).0
      go true b e f = refl
      go false true e f = refl
      go false false e f = (
        g,
        refl,
        ground (arith, eq_iff g.client_id r.client_id),
        unfold access_claims in refl,
        ground (arith, eq_iff target g.resource),
        refl,
        refl,
      )

  abbrev pub IsCodeAnswer :
      TokenRequest → ℕ → Server lib cfg durable clients codes refresh → Response → Type 0
  IsCodeAnswer r now s response =
      (found : Option Code) × (IsExchange found r now response)
      × ((c : Code)
          → found ≡ some c
          → ((take_code codes durable r.code now s.code_table).0 ≡ some c) × (now ≤ c.expires_at))

  abbrev pub IsRefreshAnswer :
      TokenRequest → ℕ → Server lib cfg durable clients codes refresh → Response → Type 0
  IsRefreshAnswer r now s response =
      (held : Option Grant) × (IsRefresh held r now response)
      × ((g : Grant)
          → held ≡ some g
          → ((take_refresh lib.digest refresh durable r.refresh_token now s.refresh_table).0
              ≡ some g)
            × (now ≤ g.expires_at))

  -- What the endpoint answers, by the kind of the grant.
  abbrev pub IsTokenAnswer :
      TokenRequest → ℕ → Server lib cfg durable clients codes refresh → Response → Type 0
  IsTokenAnswer r now s response =
      ((r.grant_type ≡ "authorization_code") × IsCodeAnswer r now s response)
      ⊎ ((r.grant_type ≡ "refresh_token") × IsRefreshAnswer r now s response)
      ⊎ (response ≡ fail 400 "unsupported_grant_type")

  take_code-live :
      (code : String) (now : ℕ) (t : Table codes) (c : Code)
      → (take_code codes durable code now t).0 ≡ some c
      → now ≤ c.expires_at
  unfolding take_code
  take_code-live code now t c e =
      unexpired-le (λ x. x.expires_at) now (take_record codes durable code t).0 c e

  take_refresh-live :
      (key : String) (now : ℕ) (t : Table refresh) (g : Grant)
      → (take_refresh lib.digest refresh durable key now t).0 ≡ some g
      → now ≤ g.expires_at
  unfolding take_refresh
  take_refresh-live key now t g e =
      unexpired-le (λ x. x.expires_at) now (take_record refresh durable (lib.digest key) t).0 g e

  token_code_sound :
      (r : TokenRequest) (fresh : Fresh) (now : ℕ)
      (s : Server lib cfg durable clients codes refresh)
      → IsCodeAnswer r now s (token_code lib cfg durable clients codes refresh r fresh now s).0
  unfolding token_code
  token_code_sound r fresh now s = elim (Bool-cases (filled r.code)) [
    | inl given ↦ rw given (
      (take_code codes durable r.code now s.code_table).0,
      exchange_code-IsExchange _ r fresh now _,
      λ c e. (e, take_code-live r.code now s.code_table c e),
    )
    | inr missing_code ↦
        rw missing_code (none, exchange_code-IsExchange none r fresh now s, λ c e. absurd (cc))
  ]

  token_refresh_sound :
      (r : TokenRequest) (fresh : Fresh) (now : ℕ)
      (s : Server lib cfg durable clients codes refresh)
      → IsRefreshAnswer r now s
          (token_refresh lib cfg durable clients codes refresh r fresh now s).0
  unfolding token_refresh
  token_refresh_sound r fresh now s = elim (Bool-cases (filled r.refresh_token)) [
    | inl given ↦ rw given (
      (take_refresh lib.digest refresh durable r.refresh_token now s.refresh_table).0,
      rotate-IsRefresh _ r fresh now _,
      λ g e. (e, take_refresh-live r.refresh_token now s.refresh_table g e),
    )
    | inr missing_token ↦
        rw missing_token (none, rotate-IsRefresh none r fresh now s, λ g e. absurd (cc))
  ]

  -- An access token is issued only for an unexpired authorization code that was taken from the
  -- store, to the client and the redirect URI that it was issued for and with the verifier of its
  -- challenge; or for an unexpired refresh token that was taken from the store, to its client and
  -- for no other resource than its own. The token then names the subject, the e-mail, the resource
  -- and the scope of that record, and ends after the access lifetime. Every other answer is an
  -- HTTP 400, or for a code an HTTP 500 where the verifier is no ASCII text.
  pub token_sound :
      (r : TokenRequest) (fresh : Fresh) (now : ℕ)
      (s : Server lib cfg durable clients codes refresh)
      → IsTokenAnswer r now s (token lib cfg durable clients codes refresh r fresh now s).0
  unfolding token
  token_sound r fresh now s = elim (Bool-cases (str_eq r.grant_type "authorization_code")) [
    | inl code_grant ↦ rw code_grant (
        inl
          ((eq_iff r.grant_type "authorization_code").0 code_grant, token_code_sound r fresh now s))
    | inr other ↦ rw other (elim (Bool-cases (str_eq r.grant_type "refresh_token")) [
      | inl refresh_grant ↦ rw refresh_grant (
          inr (
            inl (
              (eq_iff r.grant_type "refresh_token").0 refresh_grant,
              token_refresh_sound r fresh now s,
            )))
      | inr unknown ↦ rw unknown (inr (inr refl))
    ])
  ]

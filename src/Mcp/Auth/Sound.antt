-- ===== src/Mcp/Auth/Sound.antt =====
-- Whom the resource server lets in.
use finchat.Base.{
  ℕ, ◌+◌, ◌<◌, ◌≡◌, refl, ◌⊎◌, inl, inr, String, Bool, true, false, ◌&&◌, ◌||◌, not, Option, none,
  some, Bool-cases, Option-cases, if◌then◌else◌, if-intro, ltb, str_eq, member, nonempty,
}
use finchat.Base.Dict.{lookup}
use finchat.Oauth.Config.{Claims, filled, rstrip_slash}
use finchat.Mcp.Token.{Jwt, GoogleClaims}
use finchat.Mcp.Auth.{
  Settings, leeway, enabled, user, service, Verified, Outcome, unauthorized, verified, fetched_keys,
  keys, google_service, verify_google_service, of_claims, verify_with, verify_refreshed,
  verify_held, verify_user, verify_routed, verify, KeySet, Cache,
}

module _ (jwt : Jwt) (lower : String → String) (cfg : Settings) where
  open jwt use {Key}

  -- The key set that is in use holds this key under this id.
  pub data Publishes (cache : Cache jwt lower cfg) (kid : String) (key : Key) : Type 0 where
    published :
        (until : ℕ) (held : KeySet jwt lower cfg)
        → cache ≡ some (until, held)
        → lookup kid held ≡ some key
        → Publishes cache kid key

  -- A person: the token was decoded by a published key for this resource and this issuer, has not
  -- ended but for the leeway, and names somebody.
  pub record IsPerson (now : ℕ) (token : String) (v : Verified) (cache : Cache jwt lower cfg)
      : Type 0 where
    pub kid : String
    pub key : Key
    pub claims : Claims
    pub published : Publishes cache kid key
    pub decoded : jwt.decode key cfg.resource cfg.issuer leeway now token ≡ some claims
    pub audience : claims.aud ≡ cfg.resource
    pub issued : claims.iss ≡ cfg.issuer
    pub running : now < claims.exp + leeway
    pub named : filled claims.email ≡ true
    pub same : v ≡ record {
      email = claims.email;
      kind = user;
      client_id = claims.client_id;
      jti = claims.jti;
    }

  -- A service: Google verified the token for this service, with a verified e-mail that is listed.
  pub record IsListedService (now : ℕ) (token : String) (v : Verified) : Type 0 where
    pub claims : GoogleClaims
    pub decoded : jwt.google cfg.service_url now token ≡ some claims
    pub confirmed : claims.email_verified ≡ true
    pub listed : member (lower claims.email) cfg.service_callers ≡ true
    pub same : v ≡ record {
      email = claims.email;
      kind = service;
      client_id = claims.client_id;
      jti = claims.jti;
    }

  -- What an outcome may be.
  abbrev pub IsAuthentic : ℕ → String → Outcome × Cache jwt lower cfg → Type 0
  IsAuthentic now token (unauthorized detail, cache) = Unit
  IsAuthentic now token (verified v, cache) =
      IsPerson now token v cache ⊎ IsListedService now token v

  pub record Authentic (now : ℕ) (token : String) (r : Outcome × Cache jwt lower cfg) : Type 0 where
    pub authentic : IsAuthentic now token r

  refused :
      (now : ℕ) (token detail : String) (cache : Cache jwt lower cfg)
      → Authentic now token (unauthorized detail, cache)
  refused now token detail cache = record { authentic = tt }

  of_claims-Authentic :
      (now : ℕ) (token kid : String) (key : Key) (found : Option Claims)
      (cache : Cache jwt lower cfg)
      → Publishes cache kid key
      → jwt.decode key cfg.resource cfg.issuer leeway now token ≡ found
      → Authentic now token (of_claims jwt lower cfg found, cache)
  unfolding of_claims
  of_claims-Authentic now token kid key none cache pub_key e = refused now token _ cache
  of_claims-Authentic now token kid key (some c) cache pub_key e =
      let checks = jwt.decode-checks key cfg.resource cfg.issuer leeway now token c e in
      elim (Bool-cases (filled c.email)) [
        | inl named ↦ rw named (record {
          authentic = inl (record {
            kid = kid;
            key = key;
            claims = c;
            published = pub_key;
            decoded = e;
            audience = checks.0;
            issued = checks.1;
            running = checks.2;
            named = named;
            same = refl;
          });
        })
        | inr nobody ↦ rw nobody (refused now token _ cache)
      ]

  -- A key set that the cache holds, if there is one.
  abbrev InUse : Option (KeySet jwt lower cfg) × Cache jwt lower cfg → Type 0
  InUse (none, cache) = Unit
  InUse (some held, cache) = (until : ℕ) × (cache ≡ some (until, held))

  record Used (r : Option (KeySet jwt lower cfg) × Cache jwt lower cfg) : Type 0 where
    in_use : InUse r

  fetched_keys-Used :
      (now : ℕ) (fetch : Option (KeySet jwt lower cfg)) (cache : Cache jwt lower cfg)
      → Used (fetched_keys jwt lower cfg now fetch cache)
  unfolding fetched_keys
  fetched_keys-Used now none cache = record { in_use = tt }
  fetched_keys-Used now (some held) cache =
      if-intro Used (nonempty held) (record { in_use = (now + cfg.jwks_ttl, refl) })
        (record { in_use = tt })

  keys-Used :
      (force : Bool) (now : ℕ) (fetch : Option (KeySet jwt lower cfg)) (cache : Cache jwt lower cfg)
      → Used (keys jwt lower cfg force now fetch cache)
  unfolding keys
  keys-Used force now fetch none = fetched_keys-Used now fetch none
  keys-Used force now fetch (some (until, held)) =
      if-intro Used (not force && ltb now until) (record { in_use = (until, refl) })
        (fetched_keys-Used now fetch (some (until, held)))

  verify_with-Authentic :
      (now : ℕ) (token kid : String) (held : KeySet jwt lower cfg) (cache : Cache jwt lower cfg)
      → (until : ℕ) × (cache ≡ some (until, held))
      → Authentic now token (verify_with jwt lower cfg (lookup kid held) now token, cache)
  unfolding verify_with
  verify_with-Authentic now token kid held cache used = go (lookup kid held) refl
    where
      go :
          (found : Option Key)
          → lookup kid held ≡ found
          → Authentic now token (verify_with jwt lower cfg found now token, cache)
      go none e = refused now token _ cache
      go (some key) e =
          of_claims-Authentic now token kid key
            (jwt.decode key cfg.resource cfg.issuer leeway now token) cache
            (published used.0 held used.1 e) refl

  verify_refreshed-Authentic :
      (now : ℕ) (token kid : String) (r : Option (KeySet jwt lower cfg) × Cache jwt lower cfg)
      → Used r
      → Authentic now token (verify_refreshed jwt lower cfg kid now token r)
  unfolding verify_refreshed
  verify_refreshed-Authentic now token kid (none, cache) u = refused now token _ cache
  verify_refreshed-Authentic now token kid (some held, cache) u =
      verify_with-Authentic now token kid held cache u.in_use

  verify_held-Authentic :
      (now : ℕ) (token kid : String) (refetch : Option (KeySet jwt lower cfg))
      (r : Option (KeySet jwt lower cfg) × Cache jwt lower cfg)
      → Used r
      → Authentic now token (verify_held jwt lower cfg kid now token refetch r)
  unfolding verify_held
  verify_held-Authentic now token kid refetch (none, cache) u = refused now token _ cache
  verify_held-Authentic now token kid refetch (some held, cache) u =
      elim (Option-cases (lookup kid held)) [
        | inl gone ↦
            rw (verify_held, gone)
              (verify_refreshed-Authentic now token kid _ (keys-Used true now refetch cache))
        | inr (key, there) ↦
            rw (verify_held, there)
              (rw there at (verify_with-Authentic now token kid held cache u.in_use))
      ]

  google_service-Authentic :
      (now : ℕ) (token : String) (found : Option GoogleClaims) (cache : Cache jwt lower cfg)
      → jwt.google cfg.service_url now token ≡ found
      → Authentic now token (google_service jwt lower cfg found, cache)
  unfolding google_service
  google_service-Authentic now token none cache e = refused now token _ cache
  google_service-Authentic now token (some c) cache e =
      go c.email_verified (member (lower c.email) cfg.service_callers) refl refl
    where
      go :
          (a b : Bool)
          → c.email_verified ≡ a
          → member (lower c.email) cfg.service_callers ≡ b
          → Authentic now token (
            if not a || not b
                then unauthorized "service identity is not permitted"
                else verified (record {
                  email = c.email;
                  kind = service;
                  client_id = c.client_id;
                  jti = c.jti;
                }),
            cache,
          )
      go false b f g = refused now token _ cache
      go true false f g = refused now token _ cache
      go true true f g = record {
        authentic =
            inr (record { claims = c; decoded = e; confirmed = f; listed = g; same = refl });
      }

  verify_google_service-Authentic :
      (now : ℕ) (token : String) (cache : Cache jwt lower cfg)
      → Authentic now token (verify_google_service jwt lower cfg now token, cache)
  unfolding verify_google_service
  verify_google_service-Authentic now token cache =
      elim (Bool-cases (nonempty cfg.service_callers)) [
        | inl some_callers ↦
            rw some_callers
              (google_service-Authentic now token (jwt.google cfg.service_url now token) cache refl)
        | inr nobody ↦ rw nobody (refused now token _ cache)
      ]

  verify_user-Authentic :
      (kid : Option String) (now : ℕ) (token : String)
      (fetch refetch : Option (KeySet jwt lower cfg)) (cache : Cache jwt lower cfg)
      → Authentic now token (verify_user jwt lower cfg kid now token fetch refetch cache)
  unfolding verify_user
  verify_user-Authentic none now token fetch refetch cache = refused now token _ cache
  verify_user-Authentic (some kid) now token fetch refetch cache =
      if-intro (Authentic now token) (filled kid)
        (verify_held-Authentic now token kid refetch _ (keys-Used false now fetch cache))
        (refused now token _ cache)

  verify_routed-Authentic :
      (kid : Option (Option String)) (claims : Option Claims) (now : ℕ) (token : String)
      (fetch refetch : Option (KeySet jwt lower cfg)) (cache : Cache jwt lower cfg)
      → Authentic now token (verify_routed jwt lower cfg kid claims now token fetch refetch cache)
  unfolding verify_routed
  verify_routed-Authentic none claims now token fetch refetch cache = refused now token _ cache
  verify_routed-Authentic (some kid) none now token fetch refetch cache = refused now token _ cache
  verify_routed-Authentic (some kid) (some c) now token fetch refetch cache =
      if-intro (Authentic now token) (str_eq (rstrip_slash c.iss) cfg.issuer)
        (verify_user-Authentic kid now token fetch refetch cache)
        (verify_google_service-Authentic now token cache)

  -- `verify` lets in a person only with a token that a published key verified for this resource and
  -- this issuer, that has not ended but for the leeway and that names an e-mail; and a service only
  -- with a token that Google verified for this service and a verified e-mail that is listed.
  -- Everything else is unauthorized.
  pub verify-Authentic :
      (now : ℕ) (token : String) (fetch refetch : Option (KeySet jwt lower cfg))
      (cache : Cache jwt lower cfg)
      → Authentic now token (verify jwt lower cfg now token fetch refetch cache)
  unfolding verify
  verify-Authentic now token fetch refetch cache =
      if-intro (Authentic now token) (not (enabled cfg)) (refused now token _ cache) (
        if-intro (Authentic now token) (not (filled token)) (refused now token _ cache) (
          verify_routed-Authentic (jwt.header token) (jwt.unverified token) now token fetch refetch
            cache))

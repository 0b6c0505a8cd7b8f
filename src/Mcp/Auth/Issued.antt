-- ===== src/Mcp/Auth/Issued.antt =====
-- The tokens of the authorization server at the resource server.
use finchat.Base.{
  ℕ, ◌+◌, ◌≤◌, ◌<◌, ◌≡◌, refl, ◌∙◌, String, true, false, ◌&&◌, Option, none, some, List, arith,
  if◌then◌else◌, ltb, leb, str_eq, Bool-cases, inl, inr,
}
use text.Mathlib.TextPositions.{eq_refl}
use finchat.Base.Dict.{lookup}
use finchat.Oauth.Config.{Config, Claims, filled, rstrip_slash}
use finchat.Oauth.Requests.{access_claims}
use finchat.Mcp.Token.{Jwt}
use finchat.Mcp.Auth.{
  Settings, leeway, enabled, user, unauthorized, verified, KeySet, Cache, keys, of_claims,
  verify_with, verify_held, verify_user, verify_routed, verify,
}

-- What PyJWT does with a token that a key signed for these claims: its header names the key, and it
-- is decoded where audience and issuer are the expected ones and its times fit.
pub record Signed (jwt : Jwt) (c : Claims) : Type 0 where
  pub kid : String
  pub key : jwt.Key
  pub token : String
  pub there : filled token ≡ true
  pub header-token : jwt.header token ≡ some (some kid)
  pub unverified-token : jwt.unverified token ≡ some c
  pub decode-token :
      (audience issuer : String) (slack now : ℕ)
      → jwt.decode key audience issuer slack now token ≡ (
          if (str_eq c.aud audience && str_eq c.iss issuer)
            && (ltb now (c.exp + slack) && leb c.iat (now + slack))
          then some c
          else none)

module _ (jwt : Jwt) (lower : String → String) (cfg : Settings) where
  verify_held-there :
      (now : ℕ) (token kid : String) (key : jwt.Key) (refetch : Option (KeySet jwt lower cfg))
      (held : KeySet jwt lower cfg) (m : Cache jwt lower cfg)
      → lookup kid held ≡ some key
      → verify_held jwt lower cfg kid now token refetch (some held, m)
        ≡ (of_claims jwt lower cfg (jwt.decode key cfg.resource cfg.issuer leeway now token), m)
  unfolding verify_held verify_with
  verify_held-there now token kid key refetch held m there = rw (verify_held, there) refl

  verify_signed :
      (c : Claims) (signed : Signed jwt c) (now : ℕ) (fetch refetch : Option (KeySet jwt lower cfg))
      (held : KeySet jwt lower cfg) (m : Cache jwt lower cfg)
      → enabled cfg ≡ true
      → str_eq (rstrip_slash c.iss) cfg.issuer ≡ true
      → filled signed.kid ≡ true
      → lookup signed.kid held ≡ some signed.key
      → keys jwt lower cfg false now fetch m ≡ (some held, m)
      → verify jwt lower cfg now signed.token fetch refetch m ≡ (
        of_claims jwt lower cfg
            (jwt.decode signed.key cfg.resource cfg.issuer leeway now signed.token),
        m,
      )
  unfolding verify verify_routed verify_user
  verify_signed c signed now fetch refetch held m on issuer kid there fetched =
      rw
        (
          on, signed.there, signed.header-token, signed.unverified-token, verify_routed, issuer,
          verify_user, kid, fetched,
        )
        (verify_held-there now signed.token signed.kid signed.key refetch held m there)

  -- An access token that the authorization server signed is taken for its person by the resource
  -- server that it names, from its issue until it ends, if that server trusts the issuer and holds
  -- the published keys. A server of another resource that trusts the same issuer refuses it.
  pub issued_accepted :
      (oauth : Config) (subject email audience client_id : String) (scope : List String)
      (at now : ℕ) (jti : String) (fetch refetch : Option (KeySet jwt lower cfg))
      (held : KeySet jwt lower cfg) (m : Cache jwt lower cfg)
      (signed : Signed jwt (access_claims oauth subject email audience client_id scope at jti))
      → enabled cfg ≡ true
      → cfg.issuer ≡ oauth.issuer
      → rstrip_slash oauth.issuer ≡ oauth.issuer
      → filled signed.kid ≡ true
      → lookup signed.kid held ≡ some signed.key
      → keys jwt lower cfg false now fetch m ≡ (some held, m)
      → filled email ≡ true
      → at ≤ now
      → now < at + oauth.access_ttl
      → verify jwt lower cfg now signed.token fetch refetch m ≡ (
        if str_eq audience cfg.resource
            then verified (record { email = email; kind = user; client_id = client_id; jti = jti })
            else unauthorized "not decoded",
        m,
      )
  unfolding access_claims of_claims
  issued_accepted oauth subject email audience client_id scope at now jti fetch refetch held m
        signed on trust bare kid there fetched named from until =
      let c : Claims = access_claims oauth subject email audience client_id scope at jti in
      let issuer : str_eq (rstrip_slash oauth.issuer) cfg.issuer ≡ true =
        rw (bare, trust) (eq_refl oauth.issuer) in
      let same : str_eq oauth.issuer cfg.issuer ≡ true = rw trust (eq_refl oauth.issuer) in
      let running : ltb now (at + oauth.access_ttl + leeway) ≡ true = ground arith in
      let begun : leb at (now + leeway) ≡ true = ground arith in
      verify_signed c signed now fetch refetch held m on issuer kid there fetched
      ∙ elim (Bool-cases (str_eq audience cfg.resource)) [
        | inl here ↦
            rw
              (
                signed.decode-token cfg.resource cfg.issuer leeway now,
                here,
                same,
                running,
                begun,
                named,
              )
              refl
        | inr elsewhere ↦
            rw (signed.decode-token cfg.resource cfg.issuer leeway now, elsewhere) refl
      ]

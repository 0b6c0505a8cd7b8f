-- ===== src/Oauth/Server/Gates.antt =====
-- Who gets through the endpoints that answer with redirects.
use finchat.Base.{
  ℕ, ◌≤◌, ◌≡◌, refl, inl, inr, String, Bool, true, false, ◌||◌, Option, none, some, arith,
  Bool-cases, Option-cases, member, if◌then◌else◌, eq_iff, nonempty, ltb, ◌∙◌,
}
use text.Mathlib.TextPositions.{eq_refl}
use finchat.Base.Dict.{lookup, lookup-erase}
use finchat.Oauth.Documents.{Collection}
use finchat.Oauth.Store.{Client, Code, Grant}
use finchat.Oauth.Config.{
  Library, Config, Identity, Response, filled, rstrip_slash, redirect_ok, fail, back_error,
  to_google, back_code,
}
use finchat.Oauth.Requests.{Pending, AuthorizeRequest, authorize_error, identity_error, domain_of}
use finchat.Oauth.Server.{
  Server, authorize, find_client, authorize_found, authorize_client, callback, callback_pending,
  callback_identity,
}

-- The URI that an answer redirects the browser to, when it is one of the client's.
abbrev pub client_uri : Response → Option String
client_uri (back_error uri error state) = some uri
client_uri (back_code uri code state) = some uri
client_uri _ = none

abbrev pub goes_to_google : Response → Bool
goes_to_google (to_google nonce) = true
goes_to_google _ = false

-- What has to hold before a person is sent to Google.
pub record IsAdmissible (cfg : Config) (r : AuthorizeRequest) : Type 0 where
  pub response_type : r.response_type ≡ "code"
  pub method : r.code_challenge_method ≡ "S256"
  pub challenge : filled r.code_challenge ≡ true
  pub resource : member (rstrip_slash r.resource) cfg.allowed_resources ≡ true
  pub provider : (filled cfg.google_client_id ≡ true) × (filled cfg.google_client_secret ≡ true)
  pub someone : (nonempty cfg.allowed_domains || nonempty cfg.allowed_emails) ≡ true

pub authorize_error-none :
    (cfg : Config) (r : AuthorizeRequest) → authorize_error cfg r ≡ none → IsAdmissible cfg r
unfolding authorize_error
authorize_error-none cfg r e = record {
  response_type = ground (arith, eq_iff r.response_type "code");
  method = ground (arith, eq_iff r.code_challenge_method "S256");
  challenge = ground arith;
  resource = ground arith;
  provider = ground arith;
  someone = ground arith;
}

module _ (lib : Library) (cfg : Config) (durable : Bool) (clients : Collection Client)
    (codes : Collection Code) (refresh : Collection Grant) where
  -- What an answer of `authorize` to `r` may be, for the client that was found.
  abbrev pub IsSafeAnswer : AuthorizeRequest → Option Client → Response → Type 0
  IsSafeAnswer r found (fail status error) = status ≡ 400
  IsSafeAnswer r found (back_error uri error state) =
      (uri ≡ r.redirect_uri)
      × (state ≡ r.state)
      × ((client : Client) × (found ≡ some client)
          × (redirect_ok r.redirect_uri client.redirect_uris ≡ true))
  IsSafeAnswer r found (to_google nonce) =
      IsAdmissible cfg r
      × ((client : Client) × (found ≡ some client)
          × (redirect_ok r.redirect_uri client.redirect_uris ≡ true))
  IsSafeAnswer r found _ = ⊥

  authorize_client-safe :
      (r : AuthorizeRequest) (nonce : String) (now : ℕ) (client : Client)
      (s : Server lib cfg durable clients codes refresh)
      → redirect_ok r.redirect_uri client.redirect_uris ≡ true
      → IsSafeAnswer r
          (some client)
          (authorize_client lib cfg durable clients codes refresh r nonce now s).0
  unfolding authorize_client
  authorize_client-safe r nonce now client s ok = go (authorize_error cfg r) refl
    where
      go :
          (o : Option String)
          → authorize_error cfg r ≡ o
          → IsSafeAnswer r
              (some client)
              (authorize_client lib cfg durable clients codes refresh r nonce now s).0
      go none e = rw (e, authorize_client) (authorize_error-none cfg r e, (client, refl, ok))
      go (some error) e = rw (e, authorize_client) (refl, refl, (client, refl, ok))

  authorize_found-safe :
      (found : Option Client) (r : AuthorizeRequest) (nonce : String) (now : ℕ)
      (s : Server lib cfg durable clients codes refresh)
      → IsSafeAnswer r found
          (authorize_found lib cfg durable clients codes refresh found r nonce now s).0
  unfolding authorize_found
  authorize_found-safe none r nonce now s = refl
  authorize_found-safe (some client) r nonce now s =
      elim (Bool-cases (redirect_ok r.redirect_uri client.redirect_uris)) [
        | inl ok ↦ rw ok (authorize_client-safe r nonce now client s ok)
        | inr other ↦ rw other refl
      ]

  -- `authorize` answers with HTTP 400, or redirects with an error to the request's URI, or sends the
  -- person to Google; the last two only if the client is registered with exactly that URI, and the
  -- last only if PKCE with S256 is used, the resource is an allowed one, the identity provider is
  -- configured and some identity is allowed.
  pub authorize_safe :
      (r : AuthorizeRequest) (nonce : String) (now : ℕ)
      (s : Server lib cfg durable clients codes refresh)
      → IsSafeAnswer r
          (find_client lib cfg durable clients codes refresh r.client_id s).0
          (authorize lib cfg durable clients codes refresh r nonce now s).0
  unfolding authorize
  authorize_safe r nonce now s = authorize_found-safe _ r nonce now _

  -- What an answer of `callback` may be, for the pending request and the identity.
  abbrev pub IsGated : Option Pending → Option Identity → String → ℕ → Response → Type 0
  IsGated found who code now (fail status error) = status ≡ 400
  IsGated found who code now (back_error uri error state) =
      (error ≡ "access_denied")
      × ((p : Pending) × (found ≡ some p) × (uri ≡ p.redirect_uri) × (state ≡ p.state))
  IsGated found who code now (back_code uri issued_code state) =
      (issued_code ≡ code)
      × ((p : Pending) × (found ≡ some p)
          × (now ≤ p.expires_at)
          × (uri ≡ p.redirect_uri)
          × (state ≡ p.state))
      × ((i : Identity) × (who ≡ some i)
          × (i.email_verified ≡ true)
          × ((member (lib.lower i.email) cfg.allowed_emails
                || member (domain_of lib i (lib.lower i.email)) cfg.allowed_domains)
              ≡ true))
  IsGated found who code now _ = ⊥

  identity_error-none :
      (i : Identity)
      → identity_error lib cfg i ≡ none
      → (i.email_verified ≡ true)
        × ((member (lib.lower i.email) cfg.allowed_emails
              || member (domain_of lib i (lib.lower i.email)) cfg.allowed_domains)
            ≡ true)
  unfolding identity_error
  identity_error-none i e = (ground arith, ground arith)

  callback_identity-IsGated :
      (p : Pending) (who : Option Identity) (code : String) (now : ℕ)
      (s : Server lib cfg durable clients codes refresh)
      → now ≤ p.expires_at
      → IsGated
          (some p)
          who
          code
          now
          (callback_identity lib cfg durable clients codes refresh p who code now s).0
  unfolding callback_identity
  callback_identity-IsGated p none code now s live = (refl, (p, refl, refl, refl))
  callback_identity-IsGated p (some i) code now s live = go (identity_error lib cfg i) refl
    where
      go :
          (o : Option String)
          → identity_error lib cfg i ≡ o
          → IsGated
              (some p)
              (some i)
              code
              now
              (callback_identity lib cfg durable clients codes refresh p (some i) code now s).0
      go none e =
          rw (e, callback_identity)
            (
              refl,
              (p, refl, live, refl, refl),
              (i, refl, (identity_error-none i e).0, (identity_error-none i e).1),
            )
      go (some reason) e = rw (e, callback_identity) (refl, (p, refl, refl, refl))

  callback_pending-IsGated :
      (found : Option Pending) (answered : Bool) (who : Option Identity) (code : String) (now : ℕ)
      (s : Server lib cfg durable clients codes refresh)
      → IsGated found who code now
          (callback_pending lib cfg durable clients codes refresh found answered who code now s).0
  unfolding callback_pending
  callback_pending-IsGated none answered who code now s = refl
  callback_pending-IsGated (some p) answered who code now s =
      elim (Bool-cases (ltb p.expires_at now)) [
        | inl expired ↦ rw expired refl
        | inr live ↦ rw live (answer answered (ground arith))
      ]
    where
      answer :
          (b : Bool)
          → now ≤ p.expires_at
          → IsGated
              (some p)
              who
              code
              now
              (if b
                then callback_identity lib cfg durable clients codes refresh p who code now s
                else (back_error p.redirect_uri "access_denied" p.state, s)).0
      answer true live = callback_identity-IsGated p who code now s live
      answer false live = (refl, (p, refl, refl, refl))

  pending-callback_identity :
      (p : Pending) (who : Option Identity) (code : String) (now : ℕ)
      (s : Server lib cfg durable clients codes refresh)
      → (callback_identity lib cfg durable clients codes refresh p who code now s).1.pending
        ≡ s.pending
  unfolding callback_identity
  pending-callback_identity p none code now s = refl
  pending-callback_identity p (some i) code now s = elim (Option-cases (identity_error lib cfg i)) [
    | inl fine ↦ rw (fine, callback_identity) refl
    | inr (reason, e) ↦ rw (e, callback_identity) refl
  ]

  pending-callback_pending :
      (state : String) (found : Option Pending) (answered : Bool) (who : Option Identity)
      (code : String) (now : ℕ) (s : Server lib cfg durable clients codes refresh)
      → lookup state
          (callback_pending lib cfg durable clients codes refresh found answered who code now
            s).1.pending
        ≡ lookup state s.pending
  unfolding callback_pending
  pending-callback_pending state none answered who code now s = refl
  pending-callback_pending state (some p) answered who code now s =
      ground (arith, pending-callback_identity p who code now s)

  -- `callback` hands out a code only for a pending request that has not expired, to that request's
  -- redirect URI and with its state, and only if Google verified an identity whose e-mail is
  -- verified and is itself allowed or lies in an allowed domain. It answers with HTTP 400 or an
  -- `access_denied` for the pending request otherwise, and the request is no longer pending.
  pub callback-IsGated :
      (state : String) (answered : Bool) (who : Option Identity) (code : String) (now : ℕ)
      (s : Server lib cfg durable clients codes refresh)
      → let (response, s') =
          callback lib cfg durable clients codes refresh state answered who code now s in
        IsGated (lookup state s.pending) who code now response × (lookup state s'.pending ≡ none)
  unfolding callback
  callback-IsGated state answered who code now s = (
    callback_pending-IsGated (lookup state s.pending) answered who code now _,
    pending-callback_pending state (lookup state s.pending) answered who code now _
        ∙ (lookup-erase state state s.pending ∙ rw (eq_refl state) refl),
  )

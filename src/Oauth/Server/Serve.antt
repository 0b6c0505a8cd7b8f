-- ===== src/Oauth/Server/Serve.antt =====
-- Whatever is asked of the server, in any order, its tokens name allowed resources only.
use finchat.Base.{
  ℕ, All, ◌≡◌, refl, String, Bool, Option, none, some, List, [], ◌∷◌, Bool-cases, Option-cases, inl,
  inr, ◌⊎◌, ltb, if-intro,
}
use finchat.Base.Dict.{Dict, lookup}
use finchat.Oauth.Documents.{Collection}
use finchat.Oauth.Store.{Client, Code, Grant}
use finchat.Oauth.Store.Confined.{
  Every, OfSome, Every-lookup, Every-insert, Every-erase, put-TableEvery,
}
use finchat.Oauth.Config.{Library, Config, Registration, Identity, Response, filled, redirect_ok}
use finchat.Oauth.Requests.{
  Pending, AuthorizeRequest, TokenRequest, Fresh, authorize_error, pending_of, drop_expired,
  identity_error, code_of, checked_uris,
}
use finchat.Oauth.Server.{
  Server, register, authorize, callback, token, find_client, authorize_found, authorize_client,
  callback_pending, callback_identity, store_client,
}
use finchat.Oauth.Server.Gates.{authorize_error-none}
use finchat.Oauth.Server.Confined.{
  PendingAllowed, CodeAllowed, IsConfined, Confines, Good, refused, token-Good,
}

-- A request, with what the environment adds to it.
pub data Call : Type 0 where
  register_call : Option Registration → String → ℕ → Call
  authorize_call : AuthorizeRequest → String → ℕ → Call
  callback_call : String → Bool → Option Identity → String → ℕ → Call
  token_call : TokenRequest → Fresh → ℕ → Call

module _ (lib : Library) (cfg : Config) (durable : Bool) (clients : Collection Client)
    (codes : Collection Code) (refresh : Collection Grant) where
  unfoldable pub handle :
      Call
      → Server lib cfg durable clients codes refresh
      → Response × Server lib cfg durable clients codes refresh
  handle (register_call body client_id now) s =
      register lib cfg durable clients codes refresh body client_id now s
  handle (authorize_call r nonce now) s =
      authorize lib cfg durable clients codes refresh r nonce now s
  handle (callback_call state answered who code now) s =
      callback lib cfg durable clients codes refresh state answered who code now s
  handle (token_call r fresh now) s = token lib cfg durable clients codes refresh r fresh now s

  unfoldable pub serve :
      List Call
      → Server lib cfg durable clients codes refresh
      → List Response × Server lib cfg durable clients codes refresh
  serve [] s = ([], s)
  serve (call ∷ calls) s =
      let (response, s') = handle call s in
      let (responses, s'') = serve calls s' in (response ∷ responses, s'')

  register-Good :
      (body : Option Registration) (client_id : String) (now : ℕ)
      (s : Server lib cfg durable clients codes refresh)
      → IsConfined lib cfg durable clients codes refresh s
      → Good lib cfg durable clients codes refresh
          (register lib cfg durable clients codes refresh body client_id now s)
  unfolding register store_client
  register-Good none client_id now s h =
      refused lib cfg durable clients codes refresh 400 "invalid_client_metadata" s h
  register-Good (some body) client_id now s h = go (checked_uris lib body) refl
    where
      go :
          (o : String ⊎ List String)
          → checked_uris lib body ≡ o
          → Good lib cfg durable clients codes refresh
              (register lib cfg durable clients codes refresh (some body) client_id now s)
      go (inl error) e =
          rw (e, register) (refused lib cfg durable clients codes refresh 400 error s h)
      go (inr uris) e =
          rw (e, register)
            (record {
              confines = tt;
              confined = record {
                in_codes = h.in_codes;
                in_grants = h.in_grants;
                in_pending = h.in_pending;
              };
            })

  Every-drop_expired :
      (now : ℕ) (d : Dict Pending)
      → Every (PendingAllowed lib cfg durable clients codes refresh) d
      → Every (PendingAllowed lib cfg durable clients codes refresh) (drop_expired now d)
  unfolding drop_expired
  Every-drop_expired now [] h = tt
  Every-drop_expired now ((k, p) ∷ d) h = elim (Bool-cases (ltb p.expires_at now)) [
    | inl expired ↦ rw expired (Every-drop_expired now d h.1)
    | inr live ↦ rw live (h.0, Every-drop_expired now d h.1)
  ]

  authorize_client-Good :
      (r : AuthorizeRequest) (nonce : String) (now : ℕ)
      (s : Server lib cfg durable clients codes refresh)
      → IsConfined lib cfg durable clients codes refresh s
      → Good lib cfg durable clients codes refresh
          (authorize_client lib cfg durable clients codes refresh r nonce now s)
  unfolding authorize_client pending_of
  authorize_client-Good r nonce now s h = go (authorize_error cfg r) refl
    where
      go :
          (o : Option String)
          → authorize_error cfg r ≡ o
          → Good lib cfg durable clients codes refresh
              (authorize_client lib cfg durable clients codes refresh r nonce now s)
      go none e =
          rw (e, authorize_client)
            (record {
              confines = tt;
              confined = record {
                in_codes = h.in_codes;
                in_grants = h.in_grants;
                in_pending = Every-drop_expired now _ (
                    Every-insert (PendingAllowed lib cfg durable clients codes refresh) nonce
                      (pending_of r now) s.pending (authorize_error-none cfg r e).resource
                      h.in_pending);
              };
            })
      go (some error) e = rw (e, authorize_client) (record { confines = tt; confined = h })

  find_client-IsConfined :
      (client_id : String) (s : Server lib cfg durable clients codes refresh)
      → IsConfined lib cfg durable clients codes refresh s
      → IsConfined lib cfg durable clients codes refresh
          (find_client lib cfg durable clients codes refresh client_id s).1
  unfolding find_client
  find_client-IsConfined client_id s h = elim (Bool-cases (filled client_id)) [
    | inl given ↦
        rw given
          (record { in_codes = h.in_codes; in_grants = h.in_grants; in_pending = h.in_pending })
    | inr empty ↦ rw empty h
  ]

  authorize_found-Good :
      (found : Option Client) (r : AuthorizeRequest) (nonce : String) (now : ℕ)
      (s : Server lib cfg durable clients codes refresh)
      → IsConfined lib cfg durable clients codes refresh s
      → Good lib cfg durable clients codes refresh
          (authorize_found lib cfg durable clients codes refresh found r nonce now s)
  unfolding authorize_found
  authorize_found-Good none r nonce now s h =
      refused lib cfg durable clients codes refresh 400 "invalid_client" s h
  authorize_found-Good (some client) r nonce now s h =
      if-intro (Good lib cfg durable clients codes refresh)
        (redirect_ok r.redirect_uri client.redirect_uris) (authorize_client-Good r nonce now s h)
        (refused lib cfg durable clients codes refresh 400 "invalid_request" s h)

  callback_identity-Good :
      (p : Pending) (who : Option Identity) (code : String) (now : ℕ)
      (s : Server lib cfg durable clients codes refresh)
      → PendingAllowed lib cfg durable clients codes refresh p
      → IsConfined lib cfg durable clients codes refresh s
      → Good lib cfg durable clients codes refresh
          (callback_identity lib cfg durable clients codes refresh p who code now s)
  unfolding callback_identity code_of
  callback_identity-Good p none code now s ok h = record { confines = tt; confined = h }
  callback_identity-Good p (some i) code now s ok h =
      elim (Option-cases (identity_error lib cfg i)) [
        | inl fine ↦
            rw (fine, callback_identity)
              (record {
                confines = tt;
                confined = record {
                  in_codes =
                      put-TableEvery (CodeAllowed lib cfg durable clients codes refresh) codes
                        durable code (code_of lib cfg p i now) s.code_table ok h.in_codes;
                  in_grants = h.in_grants;
                  in_pending = h.in_pending;
                };
              })
        | inr (reason, e) ↦ rw (e, callback_identity) (record { confines = tt; confined = h })
      ]

  callback_pending-Good :
      (found : Option Pending) (answered : Bool) (who : Option Identity) (code : String) (now : ℕ)
      (s : Server lib cfg durable clients codes refresh)
      → OfSome (PendingAllowed lib cfg durable clients codes refresh) found
      → IsConfined lib cfg durable clients codes refresh s
      → Good lib cfg durable clients codes refresh
          (callback_pending lib cfg durable clients codes refresh found answered who code now s)
  unfolding callback_pending
  callback_pending-Good none answered who code now s ok h =
      refused lib cfg durable clients codes refresh 400 "invalid_request" s h
  callback_pending-Good (some p) answered who code now s ok h =
      if-intro (Good lib cfg durable clients codes refresh) (ltb p.expires_at now)
        (refused lib cfg durable clients codes refresh 400 "invalid_request" s h)
        (if-intro (Good lib cfg durable clients codes refresh) answered
          (callback_identity-Good p who code now s ok h) (record { confines = tt; confined = h }))

  handle-Good :
      (call : Call) (s : Server lib cfg durable clients codes refresh)
      → IsConfined lib cfg durable clients codes refresh s
      → Good lib cfg durable clients codes refresh (handle call s)
  unfolding handle authorize callback
  handle-Good (register_call body client_id now) s h = register-Good body client_id now s h
  handle-Good (authorize_call r nonce now) s h =
      authorize_found-Good _ r nonce now _ (find_client-IsConfined r.client_id s h)
  handle-Good (callback_call state answered who code now) s h =
      let P = PendingAllowed lib cfg durable clients codes refresh in
      callback_pending-Good (lookup state s.pending) answered who code now _
        (Every-lookup P state s.pending h.in_pending)
        (record {
          in_codes = h.in_codes;
          in_grants = h.in_grants;
          in_pending = Every-erase P state s.pending h.in_pending;
        })
  handle-Good (token_call r fresh now) s h =
      token-Good lib cfg durable clients codes refresh r fresh now s h

  -- If every code, refresh token and pending request of a server is for an allowed resource, then so
  -- is every access token that it issues in any sequence of registrations, authorizations,
  -- callbacks and token requests, and all the records that are left.
  pub serve-IsConfined :
      (calls : List Call) (s : Server lib cfg durable clients codes refresh)
      → IsConfined lib cfg durable clients codes refresh s
      → All (Confines lib cfg durable clients codes refresh) (serve calls s).0
        × IsConfined lib cfg durable clients codes refresh (serve calls s).1
  unfolding serve
  serve-IsConfined [] s h = (tt, h)
  serve-IsConfined (call ∷ calls) s h =
      let good = handle-Good call s h in
      let rest = serve-IsConfined calls (handle call s).1 good.confined in
      ((good.confines, rest.0), rest.1)

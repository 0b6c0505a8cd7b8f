-- ===== src/Oauth/Server/Rotation.antt =====
-- A refresh token that was presented is consumed, whether or not the call succeeded.
use finchat.Base.{
  ℕ, ◌≡◌, refl, String, Bool, true, false, Option, none, some, str_eq, not, if-intro,
}
use finchat.Base.Dict.{Dict, lookup}
use finchat.Oauth.Documents.{Collection}
use finchat.Oauth.Store.{Client, Code, Grant, Table, take_refresh, put_refresh}
use finchat.Oauth.Store.Once.{IsDone, IsSpent, take_record-IsSpent, take_record-none, put-IsSpent}
use finchat.Oauth.Config.{Library, Config, Response, filled}
use finchat.Oauth.Requests.{TokenRequest, Fresh}
use finchat.Oauth.Server.{Server, token, token_refresh, rotate, issue}

module _ (lib : Library) (cfg : Config) (durable : Bool) (clients : Collection Client)
    (codes : Collection Code) (refresh : Collection Grant) where
  -- The token's record is nowhere in the server's table.
  abbrev Consumed : String → Response × Server lib cfg durable clients codes refresh → Type 0
  Consumed presented (response, s) = IsSpent refresh (lib.digest presented) durable s.refresh_table

  rotate-Consumed :
      (presented : String) (held : Option Grant) (r : TokenRequest) (fresh : Fresh) (now : ℕ)
      (s : Server lib cfg durable clients codes refresh)
      → str_eq (lib.digest fresh.refresh) (lib.digest presented) ≡ false
      → IsSpent refresh (lib.digest presented) durable s.refresh_table
      → Consumed presented (rotate lib cfg durable clients codes refresh held r fresh now s)
  unfolding rotate issue put_refresh
  rotate-Consumed presented none r fresh now s apart spent = spent
  rotate-Consumed presented (some g) r fresh now s apart spent =
      if-intro (Consumed presented) (not (str_eq g.client_id r.client_id)) spent (
        if-intro (Consumed presented) _ spent (
          put-IsSpent refresh (lib.digest presented) durable (lib.digest fresh.refresh) _
            s.refresh_table apart spent))

  token_refresh-Consumed :
      (r : TokenRequest) (fresh : Fresh) (now : ℕ)
      (s : Server lib cfg durable clients codes refresh)
      → filled r.refresh_token ≡ true
      → str_eq (lib.digest fresh.refresh) (lib.digest r.refresh_token) ≡ false
      → IsDone refresh (lib.digest r.refresh_token) durable s.refresh_table.shared
      → Consumed r.refresh_token (token_refresh lib cfg durable clients codes refresh r fresh now s)
  unfolding token_refresh take_refresh
  token_refresh-Consumed r fresh now s given apart done = rw given (
      rotate-Consumed r.refresh_token _ r fresh now _ apart
        (take_record-IsSpent refresh (lib.digest r.refresh_token) durable s.refresh_table done))

  token-token_refresh :
      (r : TokenRequest) (fresh : Fresh) (now : ℕ)
      (s : Server lib cfg durable clients codes refresh)
      → r.grant_type ≡ "refresh_token"
      → token lib cfg durable clients codes refresh r fresh now s
        ≡ token_refresh lib cfg durable clients codes refresh r fresh now s
  unfolding token
  token-token_refresh r fresh now s kind =
      let not_code : str_eq r.grant_type "authorization_code" ≡ false = rw kind refl in
      let is_refresh : str_eq r.grant_type "refresh_token" ≡ true = rw kind refl in
      rw (not_code, is_refresh) refl

  take_refresh-none :
      (key : String) (later : ℕ) (t : Table refresh)
      → IsSpent refresh (lib.digest key) durable t
      → (take_refresh lib.digest refresh durable key later t).0 ≡ none
  unfolding take_refresh
  take_refresh-none key later t spent =
      rw (take_record-none refresh (lib.digest key) durable t spent) refl

  -- After a call of the token endpoint with a refresh token, successful or not, that refresh token
  -- gives no grant any more in the same process, nor, with a durable store, in another process that
  -- keeps no copy of its own, from the database as the call left it; if the next token's digest is
  -- another and the store is not durable or the database answered the `get` and the `delete` of the
  -- call.
  pub token_consumes :
      (r : TokenRequest) (fresh : Fresh) (now later : ℕ)
      (s : Server lib cfg durable clients codes refresh) (others : Dict Grant)
      → r.grant_type ≡ "refresh_token"
      → filled r.refresh_token ≡ true
      → str_eq (lib.digest fresh.refresh) (lib.digest r.refresh_token) ≡ false
      → IsDone refresh (lib.digest r.refresh_token) durable s.refresh_table.shared
      → lookup (lib.digest r.refresh_token) others ≡ none
      → let s' = (token lib cfg durable clients codes refresh r fresh now s).1 in
        ((take_refresh lib.digest refresh durable r.refresh_token later s'.refresh_table).0 ≡ none)
        × ((durable ≡ true)
            → (take_refresh lib.digest refresh durable r.refresh_token later
                (record { cached = others; shared = s'.refresh_table.shared })).0
              ≡ none)
  token_consumes r fresh now later s others kind given apart done no_copy =
      rw (token-token_refresh r fresh now s kind) (
        let spent = token_refresh-Consumed r fresh now s given apart done in
        (
          take_refresh-none r.refresh_token later _ spent,
          λ shared. take_refresh-none r.refresh_token later _ (no_copy, spent.1),
        ))

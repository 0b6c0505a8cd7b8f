-- ===== src/Oauth/Tests.antt =====
-- The theorems about the authorization server at a concrete deployment.
use text.Mathlib.TextPositions.{eq_refl}
use finchat.Base.{
  ℕ, zero, suc, ◌≡◌, refl, ◌⊎◌, inl, inr, String, Bool, true, false, Option, none, some, List, [],
  ◌∷◌, arith, All, str_eq, if◌then◌else◌, Bool-cases,
}
use finchat.Base.Dict.{lookup}
use finchat.Oauth.Documents.{Collection, Fetch, missing, exists}
use finchat.Oauth.Store.{Client, Code, Grant, Table, take_code, take_refresh}
use finchat.Oauth.Store.Once.{take_code_once, take_code_twice, take_code_replayed}
use finchat.Oauth.Config.{Library, Config, Identity}
use finchat.Oauth.Requests.{Pending, AuthorizeRequest, TokenRequest, Fresh}
use finchat.Oauth.Server.{Server, authorize, callback, token, find_client}
use finchat.Oauth.Server.Gates.{authorize_safe, callback-IsGated, IsSafeAnswer, IsGated}
use finchat.Oauth.Server.Tokens.{token_sound, IsTokenAnswer}
use finchat.Oauth.Server.Rotation.{token_consumes}
use finchat.Oauth.Server.Confined.{IsConfined, Confines}
use finchat.Oauth.Server.Serve.{
  Call, authorize_call, callback_call, token_call, serve, serve-IsConfined,
}

-- A collection as a function, with the number of deletes that are going to raise.
abbrev Flaky : Type 0 → Type 0
Flaky A = ℕ × (String → Option A)

module _ {A : Type 0} where
  abbrev fetch : Option A → Fetch A
  fetch none = missing
  fetch (some a) = exists a

  abbrev remove : String → Flaky A → Bool × Flaky A
  remove k (suc n, f) = (false, (n, f))
  remove k (zero, f) = (true, (zero, λ j. if str_eq k j then none else f j))

  write_read :
      (k : String) (a : A) (db : Flaky A) (j : String) (r : A)
      → fetch (if str_eq k j then some a else db.1 j) ≡ exists r
      → ((str_eq k j ≡ true) × (r ≡ a)) ⊎ (fetch (db.1 j) ≡ exists r)
  write_read k a db j r e = elim (Bool-cases (str_eq k j)) [
    | inl same ↦ inl (same, cc (rw same at e))
    | inr other ↦ inr (rw other at e)
  ]

  remove_read :
      (k : String) (db : Flaky A) (j : String) (r : A)
      → fetch ((remove k db).1.1 j) ≡ exists r
      → fetch (db.1 j) ≡ exists r
  remove_read k (suc n, f) j r e = e
  remove_read k (zero, f) j r e = elim (Bool-cases (str_eq k j)) [
    | inl same ↦ cc (rw same at e)
    | inr other ↦ rw other at e
  ]

  removed :
      (k : String) (db : Flaky A)
      → (remove k db).0 ≡ true
      → (r : A) → fetch ((remove k db).1.1 k) ≡ exists r
      → ⊥
  removed k (suc n, f) done r e = cc
  removed k (zero, f) done r e = cc (rw (eq_refl k) at e)

abbrev flaky_collection : (A : Type 0) → Collection A
flaky_collection A = record {
  Db = Flaky A;
  get = λ k db. fetch (db.1 k);
  set = λ k a db. (db.0, λ j. if str_eq k j then some a else db.1 j);
  delete = remove;
  meanwhile = λ k db. db;
  named = λ name db. none;
  get-set = write_read;
  get-meanwhile = λ k db j r e. e;
  get-delete = remove_read;
  get-delete_self = removed;
}

-- The library's functions, where their value does not matter.
abbrev library : Library
library = record {
  s256 = λ s. some s;
  digest = λ s. s;
  lower = λ s. s;
  behind_at = λ s. "example.org";
  parse_url = λ s. record { scheme = "https"; hostname = "example.org"; fragment = "" };
}

abbrev config : Config
config = record {
  issuer = "https://auth.example.org";
  google_client_id = "google";
  google_client_secret = "secret";
  allowed_domains = "example.org" ∷ [];
  allowed_emails = [];
  allowed_resources = "https://mcp.example.org" ∷ [];
  access_ttl = 600;
  refresh_ttl = 3000;
  code_ttl = 60;
}

abbrev live_code : Code
live_code = record {
  client_id = "c1";
  redirect_uri = "https://app.example.org/cb";
  code_challenge = "verifier";
  email = "a@example.org";
  subject = "a";
  resource = "https://mcp.example.org";
  scope = "mcp:tools" ∷ [];
  expires_at = 100;
}

abbrev live_grant : Grant
live_grant = record {
  client_id = "c1";
  email = "a@example.org";
  subject = "a";
  resource = "https://mcp.example.org";
  scope = "mcp:tools" ∷ [];
  expires_at = 3000;
}

abbrev registered : Client
registered = record {
  client_name = "app";
  redirect_uris = "https://app.example.org/cb" ∷ [];
  created_at = 1;
}

abbrev codes : Collection Code
codes = flaky_collection Code

abbrev no_records : {A : Type 0} → Table (flaky_collection A)
no_records = record { cached = []; shared = (0, λ k. none) }

-- A code that this process issued and stored, where `failures` deletes are going to raise.
abbrev with_code : ℕ → Table codes
with_code failures = record {
  cached = ("k", live_code) ∷ [];
  shared = (failures, λ k. if str_eq "k" k then some live_code else none);
}

take_code_once_example :
    let first = take_code codes true "k" 50 (with_code 0) in
    ((take_code codes true "k" 60 first.1).0 ≡ none)
    × ((true ≡ true)
        → (take_code codes true "k" 60 (record { cached = []; shared = first.1.shared })).0 ≡ none)
unfolding lookup
take_code_once_example =
    take_code_once codes true "k" 50 60 (with_code 0) [] (λ e. (λ up. cc, refl)) refl

take_code_replayed_example :
    let there =
      take_code codes true "k" 50 (record { cached = []; shared = (with_code 0).shared }) in
    let here = take_code codes true "k" 50 (record (with_code 0) { shared = there.1.shared }) in
    (there.0 ≡ some live_code) × (here.0 ≡ some live_code)
unfolding lookup
take_code_replayed_example =
    take_code_replayed codes "k" 50 (with_code 0) [] live_code refl refl refl refl (omega arith)

take_code_twice_example :
    let first = take_code codes true "k" 50 (with_code 1) in
    (first.0 ≡ some live_code) × ((take_code codes true "k" 50 first.1).0 ≡ some live_code)
unfolding lookup
take_code_twice_example =
    take_code_twice codes "k" 50 (with_code 1) live_code refl refl refl refl refl (omega arith)

abbrev ServerHere : Type 0
ServerHere = Server library config true (flaky_collection Client) codes (flaky_collection Grant)

abbrev server : ServerHere
server = record {
  client_table = record no_records { cached = ("c1", registered) ∷ [] };
  code_table = with_code 0;
  refresh_table = record no_records { cached = ("r1", live_grant) ∷ [] };
  pending = [];
}

abbrev authorize_request : AuthorizeRequest
authorize_request = record {
  client_id = "c1";
  redirect_uri = "https://app.example.org/cb";
  response_type = "code";
  code_challenge = "verifier";
  code_challenge_method = "S256";
  state = "xyz";
  scope = "mcp:tools" ∷ [];
  resource = "https://mcp.example.org/";
}

abbrev token_request : TokenRequest
token_request = record {
  grant_type = "authorization_code";
  code = "k";
  redirect_uri = "https://app.example.org/cb";
  client_id = "c1";
  code_verifier = "verifier";
  refresh_token = "r1";
  resource = "";
}

abbrev refresh_request : TokenRequest
refresh_request = record token_request { grant_type = "refresh_token" }

abbrev draw : Fresh
draw = record { jti = "j"; refresh = "r2" }

abbrev identity : Identity
identity = record {
  email = "a@example.org";
  hd = "example.org";
  email_verified = true;
  sub = some "a";
}

abbrev waiting : Pending
waiting = record {
  client_id = "c1";
  redirect_uri = "https://app.example.org/cb";
  code_challenge = "verifier";
  state = "xyz";
  resource = "https://mcp.example.org";
  scope = "mcp:tools" ∷ [];
  expires_at = 620;
}

abbrev waiting_server : ServerHere
waiting_server = record server { pending = ("n", waiting) ∷ [] }

authorize_safe_example :
    let c = flaky_collection Client in
    let g = flaky_collection Grant in
    IsSafeAnswer library config true c codes g authorize_request
      (find_client library config true c codes g "c1" server).0
      (authorize library config true c codes g authorize_request "n" 20 server).0
authorize_safe_example =
    authorize_safe library config true (flaky_collection Client) codes (flaky_collection Grant)
      authorize_request "n" 20 server

callback-IsGated_example :
    let c = flaky_collection Client in
    let g = flaky_collection Grant in
    let (response, s') =
      callback library config true c codes g "n" true (some identity) "k2" 30 waiting_server in
    IsGated library config true c codes g (some waiting) (some identity) "k2" 30 response
    × (lookup "n" s'.pending ≡ none)
unfolding lookup
callback-IsGated_example =
    callback-IsGated library config true (flaky_collection Client) codes (flaky_collection Grant)
      "n" true (some identity) "k2" 30 waiting_server

token_sound_example :
    let c = flaky_collection Client in
    let g = flaky_collection Grant in
    IsTokenAnswer library config true c codes g token_request 40 server
      (token library config true c codes g token_request draw 40 server).0
token_sound_example =
    token_sound library config true (flaky_collection Client) codes (flaky_collection Grant)
      token_request draw 40 server

token_consumes_example :
    let c = flaky_collection Client in
    let g = flaky_collection Grant in
    let s' = (token library config true c codes g refresh_request draw 40 server).1 in
    ((take_refresh library.digest g true "r1" 50 s'.refresh_table).0 ≡ none)
    × ((true ≡ true)
        → (take_refresh library.digest g true "r1" 50
            (record { cached = []; shared = s'.refresh_table.shared })).0
          ≡ none)
unfolding lookup
token_consumes_example =
    token_consumes library config true (flaky_collection Client) codes (flaky_collection Grant)
      refresh_request draw 40 50 server [] refl refl refl (λ e. (λ up. cc, refl)) refl

abbrev calls : List Call
calls =
    authorize_call authorize_request "n" 20
    ∷ callback_call "n" true (some identity) "k2" 30
    ∷ token_call token_request draw 40
    ∷ token_call refresh_request draw 50
    ∷ []

abbrev quiet_server : ServerHere
quiet_server = record {
  client_table = record no_records { cached = ("c1", registered) ∷ [] };
  code_table = no_records;
  refresh_table = no_records;
  pending = ("n0", waiting) ∷ [];
}

serve-IsConfined_example :
    let c = flaky_collection Client in
    let g = flaky_collection Grant in
    let (responses, s) = serve library config true c codes g calls quiet_server in
    All (Confines library config true c codes g) responses
    × IsConfined library config true c codes g s
serve-IsConfined_example =
    serve-IsConfined library config true (flaky_collection Client) codes (flaky_collection Grant)
      calls quiet_server
      (record {
        in_codes = (tt, λ k a e. cc);
        in_grants = (tt, λ k a e. cc);
        in_pending = (refl, tt);
      })

-- ===== src/Mcp/Tests.antt =====
-- The theorems about the resource server at a concrete deployment.
use finchat.Base.{
  ℕ, ◌+◌, ◌≤◌, ◌<◌, ◌≡◌, refl, String, true, ◌&&◌, Option, none, some, [], ◌∷◌, arith, Bool-cases,
  inl, inr, if◌then◌else◌, ltb, leb, str_eq, eq_iff,
}
use finchat.Base.Dict.{lookup}
use finchat.Oauth.Config.{Config, Claims, rstrip_slash}
use finchat.Oauth.Requests.{access_claims}
use finchat.Mcp.Token.{Jwt}
use finchat.Mcp.Auth.{Settings, enabled, user, verified, KeySet, Cache, keys, verify}
use finchat.Mcp.Auth.Sound.{Authentic, verify-Authentic}
use finchat.Mcp.Auth.Issued.{Signed, issued_accepted}
use finchat.Mcp.Caller.{Caller, Staff, Memory, bearer}
use finchat.Mcp.Caller.Identity.{IsMemory}
use finchat.Mcp.Server.{app, or_blank}
use finchat.Mcp.Server.Reach.{Reached, app-Reached}

abbrev oauth : Config
oauth = record {
  issuer = "https://auth.example.org";
  google_client_id = "google";
  google_client_secret = "secret";
  allowed_domains = "example.org" ∷ [];
  allowed_emails = [];
  allowed_resources = "https://mcp.example.org" ∷ [];
  access_ttl = 600;
  refresh_ttl = 3000;
  code_ttl = 60;
}

abbrev issued : Claims
issued =
    access_claims oauth "a" "a@example.org" "https://mcp.example.org" "c1" ("mcp:tools" ∷ []) 100
      "j1"

-- The claims, where the checks of the library pass.
abbrev checked : Claims → String → String → ℕ → ℕ → Option Claims
checked c audience issuer slack now =
    if (str_eq c.aud audience && str_eq c.iss issuer)
      && (ltb now (c.exp + slack) && leb c.iat (now + slack))
    then some c
    else none

fits :
    (c : Claims) (audience issuer : String) (slack now : ℕ)
    → ((str_eq c.aud audience && str_eq c.iss issuer)
        && (ltb now (c.exp + slack) && leb c.iat (now + slack)))
      ≡ true
    → (c.aud ≡ audience) × (c.iss ≡ issuer) × (now < c.exp + slack) × (c.iat ≤ now + slack)
fits c audience issuer slack now h =
    let here : str_eq c.aud audience ≡ true = ground arith in
    let from : str_eq c.iss issuer ≡ true = ground arith in
    ((eq_iff c.aud audience).0 here, (eq_iff c.iss issuer).0 from, ground arith, ground arith)

checked_lem :
    (c d : Claims) (audience issuer : String) (slack now : ℕ)
    → checked c audience issuer slack now ≡ some d
    → (d.aud ≡ audience) × (d.iss ≡ issuer) × (now < d.exp + slack) × (d.iat ≤ now + slack)
checked_lem c d audience issuer slack now h =
    elim (Bool-cases (
      (str_eq c.aud audience && str_eq c.iss issuer)
      && (ltb now (c.exp + slack) && leb c.iat (now + slack)))) [
        | inl passed ↦
            let same : c ≡ d = cc (rw passed at h) in
            rw same at (fits c audience issuer slack now passed)
        | inr failed ↦ cc (rw failed at h)
      ]

abbrev decode : String → String → String → ℕ → ℕ → String → Option Claims
decode key audience issuer slack now token =
    if str_eq key "pem" && str_eq token "t" then checked issued audience issuer slack now else none

decoded :
    (key audience issuer : String) (slack now : ℕ) (token : String) (c : Claims)
    → decode key audience issuer slack now token ≡ some c
    → (c.aud ≡ audience) × (c.iss ≡ issuer) × (now < c.exp + slack) × (c.iat ≤ now + slack)
decoded key audience issuer slack now token c h =
    elim (Bool-cases (str_eq key "pem" && str_eq token "t")) [
      | inl ours ↦ checked_lem issued c audience issuer slack now (rw ours at h)
      | inr other ↦ cc (rw other at h)
    ]

-- A library that knows the one token "t", which the key "pem" signed.
abbrev jwt : Jwt
jwt = record {
  Key = String;
  header = λ token. some (some "k1");
  unverified = λ token. if str_eq token "t" then some issued else none;
  decode = decode;
  google = λ audience now token. none;
  decode-checks = decoded;
}

abbrev lower : String → String
lower s = if str_eq s "Bearer " then "bearer " else s

abbrev strip : String → String
strip s = s

abbrev cfg : Settings
cfg = record {
  issuer = "https://auth.example.org";
  resource = "https://mcp.example.org";
  service_url = "https://mcp.example.org";
  service_callers = [];
  jwks_ttl = 3600;
}

abbrev published_keys : KeySet jwt lower cfg
published_keys = ("k1", "pem") ∷ []

abbrev held_keys : Cache jwt lower cfg
held_keys = some (4000, published_keys)

abbrev signed_token : Signed jwt issued
signed_token = record {
  kid = "k1";
  key = "pem";
  token = "t";
  there = refl;
  header-token = refl;
  unverified-token = refl;
  decode-token = λ audience issuer slack now. refl;
}

verify-Authentic_example :
    Authentic jwt lower cfg 200 "t" (verify jwt lower cfg 200 "t" none none held_keys)
verify-Authentic_example = verify-Authentic jwt lower cfg 200 "t" none none held_keys

issued_accepted_example : verify jwt lower cfg 200 "t" none none held_keys ≡ (
  verified (record { email = "a@example.org"; kind = user; client_id = "c1"; jti = "j1" }),
  held_keys,
)
unfolding enabled rstrip_slash lookup keys
issued_accepted_example =
    issued_accepted jwt lower cfg oauth "a" "a@example.org" "https://mcp.example.org" "c1"
      ("mcp:tools" ∷ []) 100 200 "j1" none none published_keys held_keys signed_token refl refl refl
      refl refl refl refl (omega arith) (omega arith)

abbrev start : Memory jwt lower strip cfg
start = record { jwks = held_keys; seen = [] }

abbrev alice : Caller
alice = record { email = "a@example.org"; kind = user; client_id = "c1"; jti = "j1" }

-- A process that has seen the token.
abbrev met : Memory jwt lower strip cfg
met = record { jwks = held_keys; seen = ("j1", alice) ∷ [] }

start-IsMemory : IsMemory jwt lower strip cfg start
start-IsMemory = record { entries = tt; bounded = omega arith }

-- The token ended at 700, and the leeway after it at 760.

abbrev staff : Staff
staff = record {
  approver_emails = [];
  analyst_emails = "a@example.org" ∷ [];
  admin_emails = [];
  agents = λ env. none;
}

app-Reached_example :
    Reached jwt lower strip strip strip cfg staff "/mcp"
      (verify jwt lower cfg 200
        (or_blank (bearer jwt lower strip cfg "Bearer t"))
        none
        none
        held_keys).0
      (app jwt lower strip strip strip cfg staff "/mcp" "Bearer t" 200 none none "which table"
        start)
app-Reached_example =
    app-Reached jwt lower strip strip strip cfg staff "/mcp" "Bearer t" 200 none none "which table"
      start start-IsMemory

-- ===== src/Oauth/Config.antt =====
-- What a deployment sets, what the requests carry, and what the endpoints answer
-- (products/mcp_auth/main.py).
use Prim.Native.Char.{code}
use finchat.Base.{
  ℕ, zero, suc, String, Bool, true, false, ◌&&◌, not, Option, List, [], ◌∷◌, if◌then◌else◌, str_eq,
  nonempty, member, select, ◌==◌,
}
use finchat.Oauth.Store.{Client}

-- `urllib.parse.urlparse`, as far as it is read.
pub record Url : Type 0 where
  pub scheme : String
  pub hostname : String
  pub fragment : String

-- Functions of Python's library: the digests (`s256` encodes in ASCII first, and raises on another
-- character: none), lower case, the part behind the last "@", the parser
-- of URLs.
pub record Library : Type 0 where
  pub s256 : String → Option String
  pub digest : String → String
  pub lower : String → String
  pub behind_at : String → String
  pub parse_url : String → Url

pub record Config : Type 0 where
  pub issuer : String
  pub google_client_id : String
  pub google_client_secret : String
  pub allowed_domains : List String
  pub allowed_emails : List String
  pub allowed_resources : List String
  pub access_ttl : ℕ
  pub refresh_ttl : ℕ
  pub code_ttl : ℕ

abbrev pub scopes : List String
scopes = "mcp:tools" ∷ "mcp:resources" ∷ []

abbrev pub probe_client_name : String
probe_client_name = "finchat-verify"

abbrev pub probe_client_ttl : ℕ
probe_client_ttl = 3600

abbrev pub pending_ttl : ℕ
pending_ttl = 600

-- The truth value of a text.
abbrev pub filled : String → Bool
filled s = not (str_eq s "")

-- `s.rstrip("/")`
unfoldable pub rstrip_slash : String → String
rstrip_slash String.[] = ""
rstrip_slash (String.◌∷◌ c s) =
    let rest = rstrip_slash s in if str_eq rest "" && (code c == 47) then "" else String.◌∷◌ c rest

-- `s[:n]`
unfoldable pub clip : ℕ → String → String
clip zero s = ""
clip (suc n) String.[] = ""
clip (suc n) (String.◌∷◌ c s) = String.◌∷◌ c (clip n s)

-- The body of a registration; no URIs where `redirect_uris` is no list of texts.
pub record Registration : Type 0 where
  pub redirect_uris : Option (List String)
  pub client_name : String

-- `_redirect_ok`
abbrev pub redirect_ok : String → List String → Bool
redirect_ok uri registered = member uri registered

abbrev pub loopback_hosts : List String
loopback_hosts = "localhost" ∷ "127.0.0.1" ∷ "::1" ∷ []

-- `_usable_redirect`
unfoldable pub usable_redirect : Library → String → Bool
usable_redirect lib uri =
    let parsed = lib.parse_url uri in
    if filled parsed.fragment
    then false
    else if str_eq parsed.scheme "https"
    then true
    else str_eq parsed.scheme "http" && member parsed.hostname loopback_hosts

-- The words of the requested scope that are offered, or else the first that is.
unfoldable pub granted_scope : List String → List String
granted_scope requested =
    let granted = select (λ s. member s scopes) requested in
    if nonempty granted then granted else "mcp:tools" ∷ []

pub record Claims : Type 0 where
  pub iss : String
  pub sub : String
  pub aud : String
  pub email : String
  pub client_id : String
  pub scope : List String
  pub iat : ℕ
  pub exp : ℕ
  pub jti : String

-- What Google's verified ID token says.
pub record Identity : Type 0 where
  pub email : String
  pub hd : String
  pub email_verified : Bool
  pub sub : Option String

pub data Response : Type 0 where
  -- an HTTPException, with its status and `error`
  fail : ℕ → String → Response
  created : String → Client → Response
  -- a redirect to the client: its URI, the `error`, the client's state
  back_error : String → String → String → Response
  -- a redirect to Google, with our own state
  to_google : String → Response
  -- a redirect to the client with a code
  back_code : String → String → String → Response
  -- the access token's claims, its lifetime, the refresh token and the scope
  issued : Claims → ℕ → String → List String → Response

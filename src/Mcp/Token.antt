-- ===== src/Mcp/Token.antt =====
-- What mcp_server relies on in PyJWT and google-auth, as a parameter. A token is a text; an absent
-- claim reads as the empty text.
use finchat.Base.{ℕ, ◌+◌, ◌≤◌, ◌<◌, ◌≡◌, String, Bool, Option, some}
use finchat.Oauth.Config.{Claims}

pub record GoogleClaims : Type 0 where
  pub email : String
  pub email_verified : Bool
  pub client_id : String
  pub jti : String

pub record Jwt : Type 1 where
  -- a public key
  pub Key : Type 0
  -- `get_unverified_header(token)`: the key id, absent or there; none where it raises
  pub header : String → Option (Option String)
  -- `decode(token, options={"verify_signature": False})`
  pub unverified : String → Option Claims
  -- `decode(token, key, algorithms=["RS256"], audience=, issuer=, leeway=, ...)` at an instant
  pub decode : Key → (audience issuer : String) → (leeway now : ℕ) → String → Option Claims
  -- `verify_oauth2_token(token, request, audience)` at an instant
  pub google : (audience : String) → (now : ℕ) → String → Option GoogleClaims
  pub decode-checks :
      (key : Key) (audience issuer : String) (leeway now : ℕ) (token : String) (c : Claims)
      → decode key audience issuer leeway now token ≡ some c
      → (c.aud ≡ audience) × (c.iss ≡ issuer) × (now < c.exp + leeway) × (c.iat ≤ now + leeway)

-- ===== src/Web.antt =====
-- The persona gates of ui/server.py and the routes behind them that name an approver to a backend.
-- An instant is a number of seconds.
pub mod Gated
mod Tests
use finchat.Base.{
  ℕ, ◌+◌, String, Bool, true, false, ◌&&◌, ◌||◌, not, Option, none, some, List, [], ◌∷◌,
  if◌then◌else◌, ltb, str_eq, member, nonempty, length,
}
use finchat.Base.Dict.{Dict, lookup, insert, get_or}
use finchat.Oauth.Config.{filled, rstrip_slash}
use finchat.Chat.Armor.{cut_suffix}
use finchat.Base.{is_some}

pub record Settings : Type 0 where
  pub client_id : String
  pub approver_emails : List String
  pub analyst_emails : List String
  pub admin_emails : List String

unfoldable pub auth_enabled : Settings → Bool
auth_enabled cfg =
    filled cfg.client_id
    && (nonempty cfg.approver_emails || (nonempty cfg.analyst_emails || nonempty cfg.admin_emails))

unfoldable pub persona_for : Settings → String → Option String
persona_for cfg email =
    if member email cfg.approver_emails
    then some "employee"
    else if member email cfg.analyst_emails
    then some "analyst"
    else if member email cfg.admin_emails
    then some "admin"
    else none

-- What Google's library says of an ID token, with the e-mail in lower case.
pub record Info : Type 0 where
  pub email_verified : Bool
  pub email : String
  pub exp : Option ℕ

pub record User : Type 0 where
  pub email : String
  pub persona : Option String
  pub exp : ℕ

-- What a client sends: `X-User-Token`, `X-Persona` and `X-Approver`, the last two with their
-- defaults.
pub record Headers : Type 0 where
  pub user_token : String
  pub persona : String
  pub approver : String

-- What becomes of a request: 403, an exception, or a request to the backend with `X-Approver`.
pub data Answer : Type 0 where
  denied : Answer
  raised : Answer
  forwarded : Option String → Answer

unfoldable pub is_persona : List String → Option String → Bool
is_persona personas none = false
is_persona personas (some p) = member p personas

-- `p.endswith(suffix)`
unfoldable pub ends_with : String → String → Bool
unfolding cut_suffix
ends_with suffix p = is_some (cut_suffix suffix p)

unfoldable pub is_privileged : String → String → Bool
unfolding ends_with
is_privileged path method =
    ends_with "/decision" path
    || (ends_with "/audit" path || (str_eq path "v1/loans" && str_eq method "GET"))

-- `google tok now` is what `verify_oauth2_token` gives for our client id; none where it raises.
module _ (google : String → ℕ → Option Info) (cfg : Settings) where
  abbrev pub Cache : Type 0
  Cache = Dict User

  -- `if len(_user_cache) > 500: _user_cache.clear()`, then the entry.
  unfoldable pub remember : String → User → Cache → Cache
  remember tok u cache = insert tok u (if ltb 500 (length cache) then [] else cache)

  unfoldable pub resolved : String → ℕ → Option Info → Cache → Option User × Cache
  unfolding remember persona_for
  resolved tok now none cache = (none, cache)
  resolved tok now (some info) cache =
      let u : User = record {
        email = info.email;
        persona = persona_for cfg info.email;
        exp = get_or (now + 300) info.exp;
      } in
      if info.email_verified then (some u, remember tok u cache) else (none, cache)

  unfoldable pub looked_up : String → ℕ → Option User → Cache → Option User × Cache
  unfolding resolved
  looked_up tok now none cache = resolved tok now (google tok now) cache
  looked_up tok now (some u) cache =
      if ltb (now + 30) u.exp then (some u, cache) else resolved tok now (google tok now) cache

  unfoldable pub verify_user : String → ℕ → Cache → Option User × Cache
  unfolding looked_up
  verify_user tok now cache =
      if filled tok && filled cfg.client_id
      then looked_up tok now (lookup tok cache) cache
      else (none, cache)

  unfoldable pub admits : List String → Option User → Bool
  unfolding is_persona
  admits personas none = false
  admits personas (some u) = is_persona personas u.persona

  -- `_require_any`: whether the caller is let in.
  unfoldable pub require_any : List String → String → ℕ → Cache → Bool × Cache
  unfolding verify_user admits
  require_any personas tok now cache =
      let (u, cache') = verify_user tok now cache in
      if auth_enabled cfg then (admits personas u, cache') else (true, cache)

  -- `_proxy`: the approver that the backend is told.
  unfoldable pub told : Headers → Option String → Answer
  told h (some verified) = forwarded (some verified)
  told h none =
      if not (auth_enabled cfg) && str_eq h.persona "employee"
      then forwarded (some h.approver)
      else forwarded none

  -- `{"X-Approver": u["email"]}`, which raises for None.
  unfoldable pub as_approver : Headers → Option User → Answer
  unfolding told
  as_approver h none = raised
  as_approver h (some u) = told h (some u.email)

  -- The gate, and the second look at the token behind it.
  unfoldable pub gated : List String → Headers → (now later : ℕ) → Cache → Answer × Cache
  unfolding require_any verify_user as_approver
  gated personas h now later cache =
      let (in_, cache') = require_any personas h.user_token now cache in
      let (u, cache'') = verify_user h.user_token later cache' in
      if in_ then (as_approver h u, cache'') else (denied, cache')

  unfoldable pub loan_proxy : String → String → Headers → (now later : ℕ) → Cache → Answer × Cache
  unfolding gated told is_privileged
  loan_proxy path method h now later cache =
      if is_privileged (rstrip_slash path) method && auth_enabled cfg
      then gated ("employee" ∷ []) h now later cache
      else (told h none, cache)

  -- A route of the steward, and whether its path is that of a review.
  unfoldable pub steward_gated : Bool → Headers → (now later : ℕ) → Cache → Answer × Cache
  unfolding gated require_any told
  steward_gated true h now later cache = gated ("admin" ∷ "employee" ∷ []) h now later cache
  steward_gated false h now later cache =
      let (in_, cache') = require_any ("admin" ∷ "employee" ∷ []) h.user_token now cache in
      if in_ then (told h none, cache') else (denied, cache')

  unfoldable pub steward_proxy : String → Headers → (now later : ℕ) → Cache → Answer × Cache
  unfolding steward_gated told ends_with
  steward_proxy path h now later cache =
      if auth_enabled cfg
      then steward_gated (ends_with "/review" (rstrip_slash path)) h now later cache
      else (told h none, cache)

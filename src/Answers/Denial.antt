-- ===== src/Answers/Denial.antt =====
-- ui/analytics_denial.py: the owner of a refusal, decided from the response's body.
use finchat.Base.{ℕ, String, Bool, List, [], ◌∷◌, any, if◌then◌else◌, ◌==◌, str_eq}
use finchat.Process.Routing.{contains}
use finchat.Oauth.Config.{clip}

abbrev pub scope_signals : List String
scope_signals =
    "access_token_scope_insufficient" ∷ "insufficient authentication scopes" ∷ "insufficient_scope"
    ∷ []

abbrev pub data_denial_signals : List String
data_denial_signals =
    "policy tag" ∷ "policytag" ∷ "bigquery" ∷ "dataset" ∷ "table" ∷ "column" ∷ "masked"
    ∷ "fine-grained" ∷ "finegrained" ∷ []

-- The answer's `denial` and `detail`, and whether it offers to request access.
pub record Denied : Type 0 where
  pub denial : String
  pub detail : String
  pub request_access : Bool

module _ (lower : String → String) where
  unfoldable pub denial_of : ℕ → String → String
  denial_of status lowered =
      if any (λ signal. contains signal lowered) scope_signals
      then "scope"
      else if any (λ signal. contains signal lowered) data_denial_signals
      then "data"
      else if status == 401
      then "identity"
      else "entitlement"

  unfoldable pub analytics_denied : ℕ → String → Denied
  unfolding denial_of
  analytics_denied status body =
      let detail = clip 400 body in
      let denial = denial_of status (lower detail) in
      record { denial = denial; detail = detail; request_access = str_eq denial "data" }

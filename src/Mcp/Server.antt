-- ===== src/Mcp/Server.antt =====
-- mcp_server/server.py: the middleware in front of the tools, and the tool `ask_analytics`, in a
-- process in which the module of the caller could be loaded (`_caller`).
pub mod Reach
use finchat.Base.{
  ℕ, String, Bool, true, false, ◌||◌, not, Option, none, some, List, [], ◌∷◌, if◌then◌else◌, str_eq,
}
use finchat.Oauth.Config.{filled}
use finchat.Process.Routing.{contains, heuristic_intent}
use finchat.Mcp.Token.{Jwt}
use finchat.Mcp.Auth.{Settings, Verified, Outcome, unauthorized, verified, KeySet, Cache, verify}
use finchat.Mcp.Caller.{
  Caller, Staff, Gate, deferred, permitted, not_permitted, require_staff, Memory, bearer, current,
}

-- `is_metadata_path`
unfoldable pub is_metadata_path : String → Bool
is_metadata_path path = contains "/.well-known/oauth-protected-resource" path

unfoldable pub is_health_path : String → Bool
is_health_path path = str_eq path "/healthz" || str_eq path "/health"

-- What the tool answers.
pub data Answer : Type 0 where
  refused : Answer
  empty_question : Answer
  -- a question about data values, which this channel does not answer
  values_refused : Answer
  -- passages of the knowledge base, for a question about policies or about the platform
  passages : String → String → Answer
  data_model : String → Answer

pub data Served : Type 0 where
  metadata : Served
  health : Served
  -- 401
  challenged : Served
  answered : Answer → Served

abbrev pub or_blank : Option String → String
or_blank none = ""
or_blank (some s) = s

module _ (jwt : Jwt) (lower upper strip routing_prompt : String → String) (cfg : Settings)
    (staff : Staff) where
  -- The part behind the gate and the empty question.
  unfoldable pub routed : String → String → Answer
  routed mode question =
      if str_eq mode "analytics"
      then values_refused
      else if str_eq mode "kb"
      then passages "kb" question
      else if str_eq mode "semantics"
      then data_model question
      else passages "platform" question

  unfoldable pub ask_open : String → Answer
  unfolding routed
  ask_open question =
      let asked = strip question in
      if filled asked
      then routed (heuristic_intent lower upper routing_prompt asked) asked
      else empty_question

  unfoldable pub ask_analytics : Gate → String → Answer
  unfolding ask_open
  ask_analytics not_permitted question = refused
  ask_analytics deferred question = ask_open question
  ask_analytics (permitted who) question = ask_open question

  -- A call of the tool in a request that the middleware let through.
  unfoldable pub serve_tool :
      String
      → ℕ
      → (fetch refetch : Option (KeySet jwt lower cfg)) → String
      → Memory jwt lower strip cfg
      → Served × Memory jwt lower strip cfg
  unfolding ask_analytics
  serve_tool header now fetch refetch question m =
      let (who, m') = current jwt lower strip cfg (some header) now fetch refetch m in
      (answered (ask_analytics (require_staff cfg staff "ask_analytics" who) question), m')

  unfoldable pub admit :
      Outcome × Cache jwt lower cfg
      → String
      → ℕ
      → (fetch refetch : Option (KeySet jwt lower cfg)) → String
      → Memory jwt lower strip cfg
      → Served × Memory jwt lower strip cfg
  unfolding serve_tool
  admit (unauthorized detail, jwks) header now fetch refetch question m =
      (challenged, record m { jwks = jwks })
  admit (verified v, jwks) header now fetch refetch question m =
      serve_tool header now fetch refetch question (record m { jwks = jwks })

  -- The middleware, around a request that calls `ask_analytics`.
  unfoldable pub app :
      String
      → String
      → ℕ
      → (fetch refetch : Option (KeySet jwt lower cfg)) → String
      → Memory jwt lower strip cfg
      → Served × Memory jwt lower strip cfg
  unfolding admit is_metadata_path is_health_path
  app path header now fetch refetch question m =
      if is_metadata_path path
      then (metadata, m)
      else if is_health_path path
      then (health, m)
      else admit
          (verify jwt lower cfg now (or_blank (bearer jwt lower strip cfg header)) fetch refetch
            m.jwks)
          header now fetch refetch question m

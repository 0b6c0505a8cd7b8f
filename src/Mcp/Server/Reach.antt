-- ===== src/Mcp/Server/Reach.antt =====
-- Which requests reach the tool `ask_analytics`.
use finchat.Base.{ℕ, ◌≡◌, refl, ◌⊎◌, inl, inr, String, true, false, Option, some, if-cases}
use finchat.Mcp.Token.{Jwt}
use finchat.Mcp.Auth.{
  Settings, enabled, Verified, Outcome, unauthorized, verified, KeySet, Cache, verify,
}
use finchat.Mcp.Caller.{Caller, Staff, Gate, deferred, permitted, not_permitted, Memory, bearer}
use finchat.Mcp.Caller.Identity.{IsMemory, IsKnown, current-Sound, Vouched}
use finchat.Mcp.Caller.Permit.{IsPermitted, IsEntitled, require_staff-IsPermitted}
use finchat.Mcp.Server.{
  Answer, refused, empty_question, values_refused, passages, data_model, Served, metadata, health,
  challenged, answered, or_blank, is_metadata_path, is_health_path, ask_analytics, serve_tool,
  admit, app,
}

module _ (jwt : Jwt) (lower upper strip routing_prompt : String → String) (cfg : Settings)
    (staff : Staff) where
  -- The caller behind an answer: OAuth is off, or somebody that a token vouched for is entitled.
  abbrev pub HasCaller : Answer → Type 0
  HasCaller refused = Unit
  HasCaller _ =
      (enabled cfg ≡ false)
      ⊎ ((who : Caller) × (jti : String) × Vouched jwt lower strip cfg jti who
          × IsEntitled staff "ask_analytics" who)

  pub record Entitled (a : Answer) : Type 0 where
    pub caller : HasCaller a

  -- What a request was served, for its path and the outcome of its verification.
  abbrev pub IsServed : String → Outcome → Served → Type 0
  IsServed path outcome metadata = is_metadata_path path ≡ true
  IsServed path outcome health = is_health_path path ≡ true
  IsServed path outcome challenged = (detail : String) × (outcome ≡ unauthorized detail)
  IsServed path outcome (answered a) = ((v : Verified) × (outcome ≡ verified v)) × Entitled a

  pub record Reached (path : String) (outcome : Outcome) (r : Served × Memory jwt lower strip cfg)
      : Type 0 where
    pub served : IsServed path outcome r.0
    pub memory : IsMemory jwt lower strip cfg r.1

  with_caller :
      (a : Answer)
      → (enabled cfg ≡ false)
        ⊎ ((who : Caller) × (jti : String) × Vouched jwt lower strip cfg jti who
            × IsEntitled staff "ask_analytics" who)
      → Entitled a
  with_caller refused h = record { caller = tt }
  with_caller empty_question h = record { caller = h }
  with_caller values_refused h = record { caller = h }
  with_caller (passages mode question) h = record { caller = h }
  with_caller (data_model question) h = record { caller = h }

  ask_analytics-Entitled :
      (found : Option Caller) (g : Gate) (question : String)
      → IsKnown jwt lower strip cfg found
      → IsPermitted cfg staff "ask_analytics" found g
      → Entitled (ask_analytics jwt lower upper strip routing_prompt cfg staff g question)
  unfolding ask_analytics
  ask_analytics-Entitled found not_permitted question k p = record { caller = tt }
  ask_analytics-Entitled found deferred question k p = with_caller _ (inl p)
  ask_analytics-Entitled found (permitted who) question k p =
      let known : IsKnown jwt lower strip cfg (some who) = rw (p.1) at k in
      with_caller _ (inr (who, known.0, known.1, p.2))

  admit-Reached :
      (path : String) (r : Outcome × Cache jwt lower cfg) (header : String) (now : ℕ)
      (fetch refetch : Option (KeySet jwt lower cfg)) (question : String)
      (m : Memory jwt lower strip cfg)
      → IsMemory jwt lower strip cfg m
      → Reached path r.0 (
          admit jwt lower upper strip routing_prompt cfg staff r header now fetch refetch question
            m)
  unfolding admit serve_tool
  admit-Reached path (unauthorized d, jwks) header now fetch refetch question m h = record {
    served = (d, refl);
    memory = record { entries = h.entries; bounded = h.bounded };
  }
  admit-Reached path (verified v, jwks) header now fetch refetch question m h =
      let start : IsMemory jwt lower strip cfg (record m { jwks = jwks }) = record {
        entries = h.entries;
        bounded = h.bounded;
      } in
      let step = current-Sound jwt lower strip cfg (some header) now fetch refetch _ start in
      record {
        served = (
          (v, refl),
          ask_analytics-Entitled _ _ question step.known
              (require_staff-IsPermitted cfg staff "ask_analytics" _),
        );
        memory = step.memory;
      }

  -- Behind the middleware, a request for `ask_analytics` is answered only if its own token was
  -- verified, and the tool answers other than by a refusal only if OAuth is not configured or its
  -- caller, whom an accepted token vouched for, is staff or a service registered for the tool. The
  -- metadata and the health page are served on their own public paths only, so that on every other
  -- path a request whose token is not verified gets a 401.
  pub app-Reached :
      (path header : String) (now : ℕ) (fetch refetch : Option (KeySet jwt lower cfg))
      (question : String) (m : Memory jwt lower strip cfg)
      → IsMemory jwt lower strip cfg m
      → Reached path
          (verify jwt lower cfg now
            (or_blank (bearer jwt lower strip cfg header))
            fetch
            refetch
            m.jwks).0
          (app jwt lower upper strip routing_prompt cfg staff path header now fetch refetch question
            m)
  unfolding app
  app-Reached path header now fetch refetch question m h =
      let outcome =
        verify jwt lower cfg now (or_blank (bearer jwt lower strip cfg header)) fetch refetch
          m.jwks in
      if-cases (Reached path outcome.0) (is_metadata_path path)
        (λ public. record { served = public; memory = h })
        (λ other.
          if-cases (Reached path outcome.0) (is_health_path path)
            (λ public. record { served = public; memory = h })
            (λ tool. admit-Reached path outcome header now fetch refetch question m h))

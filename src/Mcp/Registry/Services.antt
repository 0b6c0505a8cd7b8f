-- ===== src/Mcp/Registry/Services.antt =====
-- What the registry opens to services.
use finchat.Base.{
  ◌≡◌, refl, ap, ◌∙◌, String, true, false, ◌&&◌, some, List, [], ◌∷◌, All, if-intro, str_eq, member,
}
use finchat.Oauth.Config.{filled}
use finchat.Mcp.Auth.{Settings, enabled, service}
use finchat.Mcp.Caller.{
  Caller, Agent, Staff, tools_of, tools_in, local_part, split_on, registered_tools, not_permitted,
  kind_gate, staff_gate, require_staff,
}
use finchat.Mcp.Caller.Permit.{is_staff-service}
use finchat.Mcp.Registry.{entry, agents, registry}

-- The tools lack the tool.
record Lacks (tool : String) (tools : List String) : Type 0 where
  lacks : member tool tools ≡ false

tools_of-Lacks :
    (tool account : String) (as_ : List Agent)
    → All (λ (a : Agent). member tool a.tools ≡ false) as_
    → Lacks tool (tools_of account as_)
unfolding tools_of
tools_of-Lacks tool account [] h = record { lacks = refl }
tools_of-Lacks tool account (a ∷ as_) h =
    if-intro (Lacks tool) (str_eq a.status "active" && str_eq a.account_id account)
      (record { lacks = h.0 }) (tools_of-Lacks tool account as_ h.1)

tools_in-Lacks :
    (tool account : String) (approvers analysts admins parts : List String)
    → ((env : String) → All (λ (a : Agent). member tool a.tools ≡ false) (agents env))
    → Lacks tool (tools_in (registry approvers analysts admins) account parts)
unfolding tools_in
tools_in-Lacks tool account approvers analysts admins [] h = record { lacks = refl }
tools_in-Lacks tool account approvers analysts admins (a ∷ []) h = record { lacks = refl }
tools_in-Lacks tool account approvers analysts admins (a ∷ b ∷ []) h = record { lacks = refl }
tools_in-Lacks tool account approvers analysts admins (a ∷ env ∷ c ∷ more) h =
    if-intro (Lacks tool) (str_eq a "finchat") (tools_of-Lacks tool account (agents env) (h env))
      (record { lacks = refl })

registered_tools-Lacks :
    (tool email : String) (approvers analysts admins : List String)
    → ((env : String) → All (λ (a : Agent). member tool a.tools ≡ false) (agents env))
    → Lacks tool (registered_tools (registry approvers analysts admins) email)
unfolding registered_tools
registered_tools-Lacks tool email approvers analysts admins h =
    if-intro (Lacks tool) (filled email) {y = []}
      (tools_in-Lacks tool (local_part (split_on 64 email)) approvers analysts admins
        (split_on 45 (local_part (split_on 64 email))) h)
      (record { lacks = refl })

kind_gate-service :
    (staff : Staff) (tool : String) (who : Caller)
    → who.kind ≡ service
    → member tool (registered_tools staff who.email) ≡ false
    → kind_gate staff tool who service ≡ not_permitted
unfolding kind_gate
kind_gate-service staff tool who kind lacks = rw (is_staff-service staff who kind, lacks) refl

-- With the agents that are registered, whatever e-mails the lists of staff hold, no service may call
-- `ask_analytics`: with OAuth configured the gate refuses every caller that is a service.
pub require_staff-service :
    (cfg : Settings) (approvers analysts admins : List String) (who : Caller)
    → enabled cfg ≡ true
    → who.kind ≡ service
    → require_staff cfg (registry approvers analysts admins) "ask_analytics" (some who)
      ≡ not_permitted
unfolding require_staff staff_gate agents entry
require_staff-service cfg approvers analysts admins who on kind =
    let staff = registry approvers analysts admins in
    let lacks =
      (registered_tools-Lacks "ask_analytics" who.email approvers analysts admins (λ env. (
        refl,
        (refl, (refl, (refl, (refl, (refl, (refl, (refl, (refl, (refl, (refl, tt)))))))))),
      ))).lacks in
    rw on (
      ap (kind_gate staff "ask_analytics" who) kind
      ∙ kind_gate-service staff "ask_analytics" who kind lacks)

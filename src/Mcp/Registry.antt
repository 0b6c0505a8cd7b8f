-- ===== src/Mcp/Registry.antt =====
-- scripts/agents_catalog.py: the registered agents, as far as the gates of the resource server read
-- them, and the account ids that are derived for them.
pub mod Services
use Prim.Native.Char.{code}
use Prim.Native.String.{◌++◌ as ◌<>◌}
use finchat.Base.{
  ℕ, ◌≡◌, refl, ◌∙◌, String, Bool, true, false, ◌&&◌, ◌||◌, Option, some, List, [], ◌∷◌, arith,
  if◌then◌else◌, if-intro, str_eq, member, ◌==◌, Bool-cases, inl, inr,
}
use finchat.Oauth.Config.{clip}
use finchat.Mcp.Auth.{Settings, enabled, service}
use finchat.Mcp.Caller.{
  Caller, Agent, Staff, tools_of, tools_in, local_part, split_on, registered_tools, is_staff,
  persona, not_permitted, kind_gate, staff_gate, require_staff,
}

-- `s.rstrip("-")`
unfoldable pub rstrip_dash : String → String
rstrip_dash String.[] = ""
rstrip_dash (String.◌∷◌ c s) =
    let rest = rstrip_dash s in if str_eq rest "" && (code c == 45) then "" else String.◌∷◌ c rest

unfoldable pub service_account_id : String → String → String
unfolding rstrip_dash
service_account_id env sa_key = rstrip_dash (clip 30 ("finchat-" <> env <> "-" <> sa_key))

-- An entry of the registry, all of which are active.
unfoldable pub entry : String → String → List String → Agent
unfolding service_account_id
entry env sa_key tools = record {
  account_id = service_account_id env sa_key;
  status = "active";
  tools = tools;
}

unfoldable pub agents : String → List Agent
unfolding entry
agents env =
    entry env "agent-banking-assistant" (
      "get_account_balance" ∷ "get_transaction_history" ∷ "get_account_summary" ∷ "get_loan_status"
      ∷ "search_knowledge_base" ∷ [])
    ∷ entry env "agent-loan-planner" []
    ∷ entry env "agent-credit" ("generate_credit_profile" ∷ [])
    ∷ entry env "agent-txn-review" ("get_overdraft_history" ∷ [])
    ∷ entry env "agent-approval" ("compute_risk" ∷ [])
    ∷ entry env "agent-notification" ("send_notification" ∷ [])
    ∷ entry env "agent-steward-planner" ("read_findings" ∷ [])
    ∷ entry env "agent-steward-generator" []
    ∷ entry env "agent-steward-evaluator" []
    ∷ entry env "agent-analyst-fallback" ("conversational_analytics_chat" ∷ [])
    ∷ entry env "aws-mcp" (
        "finchat_status" ∷ "describe_data_model" ∷ "lookup_glossary_term" ∷ "search_knowledge_base"
        ∷ "get_account_balance" ∷ "get_account_transactions" ∷ "get_account_summary"
        ∷ "get_customer_overview" ∷ "get_recent_activity" ∷ "get_loan_status" ∷ [])
    ∷ []

abbrev pub registry : List String → List String → List String → Staff
registry approvers analysts admins = record {
  approver_emails = approvers;
  analyst_emails = analysts;
  admin_emails = admins;
  agents = λ env. some (agents env);
}

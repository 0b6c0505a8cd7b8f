-- ===== src/Mcp/Caller/Permit.antt =====
-- Whom a staff surface is open to.
use finchat.Base.{
  ◌≡◌, refl, ◌⊎◌, inl, inr, String, Bool, true, false, ◌&&◌, ◌||◌, Option, none, some, List, [],
  ◌∷◌, arith, any, Bool-cases, Option-cases, str_eq, member,
}
use finchat.Oauth.Config.{filled}
use finchat.Mcp.Auth.{Settings, enabled, Kind, user, service}
use finchat.Mcp.Caller.{
  Caller, Agent, Staff, persona, is_staff, tools_of, tools_in, local_part, split_on,
  registered_tools, Gate, deferred, permitted, not_permitted, kind_gate, staff_gate, require_staff,
}

-- Some active registration of the account names the tool.
abbrev pub registers : String → String → List Agent → Bool
registers account tool agents =
    any (λ a. str_eq a.status "active" && (str_eq a.account_id account && member tool a.tools))
      agents

-- Why a caller may call the tool.
abbrev pub IsEntitled : Staff → String → Caller → Type 0
IsEntitled staff tool who =
    ((who.kind ≡ user)
      × ((member who.email staff.admin_emails
            || (member who.email staff.analyst_emails || member who.email staff.approver_emails))
          ≡ true))
    ⊎ ((who.kind ≡ service)
        × ((env : String) × (agents : List Agent) × (staff.agents env ≡ some agents)
            × (registers (local_part (split_on 64 who.email)) tool agents ≡ true)))

tools_of-registers :
    (account tool : String) (agents : List Agent)
    → member tool (tools_of account agents) ≡ true
    → registers account tool agents ≡ true
unfolding tools_of
tools_of-registers account tool [] h = cc
tools_of-registers account tool (a ∷ agents) h =
    ground (arith, tools_of-registers account tool agents)

tools_in-registers :
    (staff : Staff) (account tool : String) (parts : List String)
    → member tool (tools_in staff account parts) ≡ true
    → (env : String) × (agents : List Agent) × (staff.agents env ≡ some agents)
      × (registers account tool agents ≡ true)
unfolding tools_in
tools_in-registers staff account tool [] h = cc
tools_in-registers staff account tool (a ∷ []) h = cc
tools_in-registers staff account tool (a ∷ b ∷ []) h = cc
tools_in-registers staff account tool (a ∷ env ∷ key ∷ more) h =
    elim (Bool-cases (str_eq a "finchat")) [
      | inl ours ↦ elim (Option-cases (staff.agents env)) [
        | inl gone ↦ cc (rw (tools_in, ours, gone) at h)
        | inr (agents, there) ↦ (
          env,
          agents,
          there,
          tools_of-registers account tool agents (rw (tools_in, ours, there) at h),
        )
      ]
      | inr other ↦ cc (rw (tools_in, other) at h)
    ]

registered_tools-registers :
    (staff : Staff) (email tool : String)
    → member tool (registered_tools staff email) ≡ true
    → (env : String) × (agents : List Agent) × (staff.agents env ≡ some agents)
      × (registers (local_part (split_on 64 email)) tool agents ≡ true)
unfolding registered_tools
registered_tools-registers staff email tool h = elim (Bool-cases (filled email)) [
  | inl given ↦
      tools_in-registers staff (local_part (split_on 64 email)) tool
        (split_on 45 (local_part (split_on 64 email))) (rw given at h)
  | inr blank ↦ cc (rw blank at h)
]

is_staff-person :
    (staff : Staff) (who : Caller)
    → who.kind ≡ user
    → is_staff staff who ≡ true
    → (member who.email staff.admin_emails
        || (member who.email staff.analyst_emails || member who.email staff.approver_emails))
      ≡ true
unfolding is_staff persona
is_staff-person staff who kind h = ground arith

-- What the gate may answer for the caller that was found.
abbrev pub IsPermitted : Settings → Staff → String → Option Caller → Gate → Type 0
IsPermitted cfg staff tool found deferred = enabled cfg ≡ false
IsPermitted cfg staff tool found (permitted who) =
    (enabled cfg ≡ true) × (found ≡ some who) × IsEntitled staff tool who
IsPermitted cfg staff tool found not_permitted = enabled cfg ≡ true

record Permits (cfg : Settings) (staff : Staff) (tool : String) (found : Option Caller) (g : Gate)
    : Type 0 where
  permits : IsPermitted cfg staff tool found g

pub is_staff-service :
    (staff : Staff) (who : Caller) → who.kind ≡ service → is_staff staff who ≡ false
unfolding is_staff persona
is_staff-service staff who e = rw (e, is_staff, persona) refl

kind_gate-Permits :
    (cfg : Settings) (staff : Staff) (tool : String) (who : Caller) (k : Kind)
    → enabled cfg ≡ true
    → who.kind ≡ k
    → Permits cfg staff tool (some who) (kind_gate staff tool who k)
unfolding kind_gate
kind_gate-Permits cfg staff tool who user on e = elim (Bool-cases (is_staff staff who)) [
  | inl staffed ↦
      rw staffed (record { permits = (on, refl, inl (e, is_staff-person staff who e staffed)) })
  | inr other ↦ rw other (record { permits = on })
]
kind_gate-Permits cfg staff tool who service on e =
    elim (Bool-cases (member tool (registered_tools staff who.email))) [
      | inl named ↦
          rw (is_staff-service staff who e, named)
            (record {
              permits = (on, refl, inr (e, registered_tools-registers staff who.email tool named));
            })
      | inr other ↦ rw (is_staff-service staff who e, other) (record { permits = on })
    ]

staff_gate-Permits :
    (cfg : Settings) (staff : Staff) (tool : String) (found : Option Caller)
    → enabled cfg ≡ true
    → Permits cfg staff tool found (staff_gate staff tool found)
unfolding staff_gate
staff_gate-Permits cfg staff tool none on = record { permits = on }
staff_gate-Permits cfg staff tool (some who) on =
    kind_gate-Permits cfg staff tool who who.kind on refl

-- The gate of a staff surface defers exactly where OAuth is not configured. Otherwise it permits
-- only the caller that was identified, and only a person on the list of admins, analysts or
-- approvers, or a service whose account has an active registration that names the tool.
pub require_staff-IsPermitted :
    (cfg : Settings) (staff : Staff) (tool : String) (found : Option Caller)
    → IsPermitted cfg staff tool found (require_staff cfg staff tool found)
unfolding require_staff
require_staff-IsPermitted cfg staff tool found = elim (Bool-cases (enabled cfg)) [
  | inl on ↦ rw on ((staff_gate-Permits cfg staff tool found on).permits)
  | inr off ↦ rw off off
]

-- ===== src/Steward.antt =====
-- The durable steward (products/steward/harness): its plan, its assessment and its run. DBOS checkpoints
-- the steps and keeps the reviews of a run in the order in which they were sent.
pub mod Run
pub mod Ranked
mod Tests
use finchat.Base.{
  ℕ, zero, suc, ◌+◌, ◌-◌, ◌*◌, String, Bool, true, false, Option, none, some, List, [], ◌∷◌,
  if◌then◌else◌, leb, ltb, ◌==◌,
}
use finchat.Oauth.Config.{filled}

pub record Finding : Type 0 where
  pub id : String
  pub scan : String
  pub label : String
  pub dimension : String
  pub column : String
  pub evaluated : ℕ
  pub passed_count : ℕ

-- A rule of a scan's latest job.
pub record Rule : Type 0 where
  pub passed : Bool
  pub column : String
  pub dimension : String
  pub evaluated_count : ℕ
  pub passed_count : ℕ

-- The loop over the rules; `id` and `label` give the texts for a rule and its index.
unfoldable pub findings_of :
    (id : ℕ → String) (label : Rule → String) (scan : String) → ℕ → List Rule → List Finding
findings_of id label scan i [] = []
findings_of id label scan i (r ∷ rules) =
    let rest = findings_of id label scan (i + 1) rules in
    if r.passed
    then rest
    else record {
      id = id i;
      scan = scan;
      label = label r;
      dimension = r.dimension;
      column = r.column;
      evaluated = r.evaluated_count;
      passed_count = r.passed_count;
    }
      ∷ rest

-- `passed_count - evaluated` of one finding is at most that of the other.
abbrev pub is_before : Finding → Finding → Bool
is_before f g = leb (f.passed_count + g.evaluated) (g.passed_count + f.evaluated)

unfoldable pub insert_finding : Finding → List Finding → List Finding
insert_finding f [] = f ∷ []
insert_finding f (g ∷ gs) =
    let rest = insert_finding f gs in if is_before f g then f ∷ g ∷ gs else g ∷ rest

-- `plan`: `sorted` keeps the order of equal keys.
unfoldable pub plan : List Finding → List Finding
unfolding insert_finding
plan [] = []
plan (f ∷ fs) = insert_finding f (plan fs)

-- The reason that the approver is shown; the score is left out.
pub data Assessment : Type 0 where
  not_quantified small_radius large_radius : Assessment

-- A ratio below 0.05 is one below 1/20; more rows passed than evaluated make a negative one.
unfoldable pub assess : Finding → Assessment
assess f =
    if f.evaluated == 0
    then not_quantified
    else if f.evaluated == f.passed_count
    then not_quantified
    else if ltb (20 * (f.evaluated - f.passed_count)) f.evaluated
    then small_radius
    else large_radius

-- The model's text, or the template with its numbers.
pub data Proposal : Type 0 where
  by_model : String → Proposal
  by_template : (n_bad : ℕ) → (column scan dimension : String) → Proposal

-- `propose`, for the model's answer if there is one.
unfoldable pub propose : Option String → Finding → Proposal
propose (some answer) f = by_model answer
propose none f =
    by_template (f.evaluated - f.passed_count) (if filled f.column then f.column else "the table")
      f.scan f.dimension

pub record Decision : Type 0 where
  pub approved : Bool
  pub approver : String
  pub note : String

-- `review`: the approver is the verified one of the header, if there is one.
unfoldable pub review : Option String → Decision → Decision
review none d = d
review (some header) d = if filled header then record d { approver = header } else d

pub data Resolution : Type 0 where
  timeout_auto_defer applied rejected : Resolution

pub record Entry : Type 0 where
  pub task : String
  pub result : Proposal
  pub reason : Assessment
  pub resolution : Resolution
  -- the review that the step was woken by, with its approver
  pub decision : Option Decision

-- An order that was recorded: the side effect of `apply_remediation`.
pub record Order : Type 0 where
  pub finding : Finding
  pub proposal : Proposal
  pub decision : Decision

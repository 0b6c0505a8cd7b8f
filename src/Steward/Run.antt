-- ===== src/Steward/Run.antt =====
-- `steward_run` of products/steward/harness/harness.py, over the reviews that are sent to the run.
pub mod Reviewed
use finchat.Base.{
  ℕ, zero, suc, ◌+◌, String, Bool, true, false, Option, none, some, List, [], ◌∷◌, ◌++◌,
  if◌then◌else◌, leb, count, length, ◌-◌, ℤ, pos, negsuc,
}
use finchat.Steward.{
  Finding, plan, Assessment, assess, Proposal, propose, Decision, Resolution, timeout_auto_defer,
  applied, rejected, Entry, Order,
}

-- What a step meets: the model's proposal, and the reviews that are sent until the step is woken or
-- its wait has timed out.
pub record Meets : Type 0 where
  pub answer : Option String
  pub reviews : List Decision

pub record State : Type 0 where
  pub history : List Entry
  pub orders : List Order
  -- the reviews that no step has received
  pub mailbox : List Decision

-- `DBOS.recv`: the oldest review, or none when the wait has timed out.
unfoldable pub recv : List Decision → Option Decision × List Decision
recv [] = (none, [])
recv (d ∷ mailbox) = (some d, mailbox)

abbrev pub resolution_of : Option Decision → Resolution
resolution_of none = timeout_auto_defer
resolution_of (some d) = if d.approved then applied else rejected

-- The order that a decision leads to.
unfoldable pub ordered : Finding → Proposal → Option Decision → List Order
ordered f proposal none = []
ordered f proposal (some d) =
    if d.approved then record { finding = f; proposal = proposal; decision = d } ∷ [] else []

-- One round of the loop.
unfoldable pub step : Finding → Meets → State → State
unfolding recv ordered assess propose
step f w s =
    let proposal = propose w.answer f in
    let (decision, mailbox) = recv (s.mailbox ++ w.reviews) in
    record {
      history =
          s.history
          ++ record {
            task = f.label;
            result = proposal;
            reason = assess f;
            resolution = resolution_of decision;
            decision = decision;
          }
            ∷ [];
      orders = s.orders ++ ordered f proposal decision;
      mailbox = mailbox;
    }

-- `for i, f in enumerate(...)`
unfoldable pub work : (ℕ → Meets) → ℕ → List Finding → State → State
unfolding step
work meets i [] s = s
work meets i (f ∷ fs) s = work meets (i + 1) fs (step f (meets i) s)

unfoldable pub take : ℕ → List Finding → List Finding
take zero fs = []
take (suc n) [] = []
take (suc n) (f ∷ fs) = f ∷ take n fs

-- `findings[:max_steps]`: a negative number leaves out as many at the end.
unfoldable pub first : ℤ → List Finding → List Finding
unfolding take
first (pos n) fs = take n fs
first (negsuc n) fs = take (length fs - suc n) fs

abbrev pub idle : State
idle = record { history = []; orders = []; mailbox = [] }

unfoldable pub steward_run : ℤ → List Finding → (ℕ → Meets) → State
unfolding work first plan
steward_run max_steps findings meets = work meets 0 (first max_steps (plan findings)) idle

-- `summarize`: the findings and the orders that were approved.
abbrev pub is_applied : Entry → Bool
is_applied e = elim e.resolution [ applied ↦ true | _ ↦ false ]

unfoldable pub applied_count : List Entry → ℕ
applied_count history = count is_applied history

-- ===== src/Steward/Run/Reviewed.antt =====
-- What the orders of a run were approved by.
use finchat.Base.{
  ℕ, ◌+◌, ◌≡◌, refl, sym, ◌∙◌, ap, Bool, none, some, List, [], ◌∷◌, ◌++◌, map, append_assoc,
  append-nil, ℤ, count, ◌≢◌, Option, if-cases, true, false, arith,
}
use finchat.Steward.{Finding, plan, propose, assess, Decision, Entry, Order, applied, rejected}
use finchat.Steward.Ranked.{IsRanked, plan-IsRanked, count-plan}
use finchat.Steward.Run.{
  Meets, State, recv, ordered, resolution_of, step, work, first, idle, steward_run,
}

-- The reviews that woke the steps.
unfoldable pub taken : List Entry → List Decision
taken [] = []
taken (e ∷ es) = let rest = taken es in elim e.decision [ none ↦ rest | some d ↦ d ∷ rest ]

-- The reviews that were sent while the steps waited.
unfoldable pub sent : (ℕ → Meets) → ℕ → List Finding → List Decision
sent meets i [] = []
sent meets i (f ∷ fs) = (meets i).reviews ++ sent meets (i + 1) fs

-- The orders of a run, given its findings and their entries: an entry with an approving review has
-- the resolution `applied` and one order, for its finding, its proposal and that review; any other
-- entry has another resolution and no order.
pub data OrdersFor : List Finding → List Entry → List Order → Type 0 where
  finished : OrdersFor [] [] []
  approved :
      (f : Finding) (e : Entry) (d : Decision) {fs : List Finding} {es : List Entry}
      {orders : List Order}
      → e.decision ≡ some d
      → d.approved ≡ true
      → e.resolution ≡ applied
      → OrdersFor fs es orders
      → OrdersFor
          (f ∷ fs)
          (e ∷ es)
          (record { finding = f; proposal = e.result; decision = d } ∷ orders)
  unapproved :
      (f : Finding) (e : Entry) {fs : List Finding} {es : List Entry} {orders : List Order}
      → ((d : Decision) → e.decision ≡ some d → d.approved ≡ false)
      → e.resolution ≢ applied
      → OrdersFor fs es orders
      → OrdersFor (f ∷ fs) (e ∷ es) orders

record Reviewed (fs : List Finding) (reviews : List Decision) (s s' : State) : Type 0 where
  new : List Entry
  history : s'.history ≡ s.history ++ new
  tasks : map (λ (e : Entry). e.task) new ≡ map (λ (f : Finding). f.label) fs
  received : taken new ++ s'.mailbox ≡ s.mailbox ++ reviews
  placed : List Order
  orders : s'.orders ≡ s.orders ++ placed
  reviewed : OrdersFor fs new placed

-- The entry of a step.
entry_of : Finding → Meets → State → Entry
entry_of f w s = record {
  task = f.label;
  result = propose w.answer f;
  reason = assess f;
  resolution = resolution_of (recv (s.mailbox ++ w.reviews)).0;
  decision = (recv (s.mailbox ++ w.reviews)).0;
}

taken-recv :
    (e : Entry) (es : List Entry) (mailbox reviews rest : List Decision)
    → e.decision ≡ (recv mailbox).0
    → taken es ++ rest ≡ (recv mailbox).1 ++ reviews
    → taken (e ∷ es) ++ rest ≡ mailbox ++ reviews
unfolding taken recv
taken-recv e es [] reviews rest h k = rw h k
taken-recv e es (d ∷ mailbox) reviews rest h k = rw h (ap (λ ds. d ∷ ds) k)

ordered-OrdersFor :
    (f : Finding) (e : Entry) (fs : List Finding) (es : List Entry) (orders : List Order)
    (found : Option Decision)
    → e.decision ≡ found
    → e.resolution ≡ resolution_of found
    → OrdersFor fs es orders
    → OrdersFor (f ∷ fs) (e ∷ es) (ordered f e.result found ++ orders)
unfolding ordered
ordered-OrdersFor f e fs es orders none h k rest =
    OrdersFor.unapproved f e (λ d g. cc (h, g)) (λ g. cc (k, g)) rest
ordered-OrdersFor f e fs es orders (some d) h k rest =
    if-cases (λ placed. OrdersFor (f ∷ fs) (e ∷ es) (placed ++ orders)) d.approved
      (λ good. OrdersFor.approved f e d h good (ground (arith, k, good)) rest)
      (λ bad.
        let other : e.resolution ≡ rejected = ground (arith, k, bad) in
        OrdersFor.unapproved f e (λ d' g. ground (arith, h, g, bad)) (λ g. cc (other, g)) rest)

work-Reviewed :
    (meets : ℕ → Meets) (i : ℕ) (fs : List Finding) (s : State)
    → Reviewed fs (sent meets i fs) s (work meets i fs s)
unfolding work step sent taken entry_of
work-Reviewed meets i [] s = record {
  new = [];
  history = sym (append-nil s.history);
  tasks = refl;
  received = sym (append-nil s.mailbox);
  placed = [];
  orders = sym (append-nil s.orders);
  reviewed = OrdersFor.finished;
}
work-Reviewed meets i (f ∷ fs) s =
    let rest = work-Reviewed meets (i + 1) fs (step f (meets i) s) in
    let e = entry_of f (meets i) s in
    record {
      new = e ∷ rest.new;
      history = rest.history ∙ append_assoc s.history (e ∷ []) rest.new;
      tasks = ap (λ ts. f.label ∷ ts) rest.tasks;
      received =
          taken-recv e rest.new (s.mailbox ++ (meets i).reviews) (sent meets (i + 1) fs) _ refl
            rest.received
          ∙ append_assoc s.mailbox (meets i).reviews (sent meets (i + 1) fs);
      placed = ordered f e.result e.decision ++ rest.placed;
      orders = rest.orders ∙ append_assoc s.orders (ordered f e.result e.decision) rest.placed;
      reviewed =
          ordered-OrdersFor f e fs rest.new rest.placed (recv (s.mailbox ++ (meets i).reviews)).0
            refl refl rest.reviewed;
    }

-- The plan of a run holds each finding as often as it was found, those with more failing rows first,
-- and the run works on as many of its first ones as it may, with one entry of the history for each
-- in their order; the reviews that woke its steps, and those that are left, are
-- the reviews that were sent, each once and in their order, so that no review is used twice; and the
-- orders that it recorded are one for each step whose review approved, for the step's finding and
-- proposal and with that review, in the order of the steps, and none for a step whose review rejected
-- or whose wait timed out.
pub steward_run_reviewed :
    (max_steps : ℤ) (findings : List Finding) (meets : ℕ → Meets)
    → let planned = first max_steps (plan findings) in
      let s = steward_run max_steps findings meets in
      IsRanked (plan findings)
      × ((p : Finding → Bool) → count p (plan findings) ≡ count p findings)
      × (map (λ (e : Entry). e.task) s.history ≡ map (λ (f : Finding). f.label) planned)
      × (taken s.history ++ s.mailbox ≡ sent meets 0 planned)
      × OrdersFor planned s.history s.orders
unfolding steward_run
steward_run_reviewed max_steps findings meets =
    let planned = first max_steps (plan findings) in
    let r = work-Reviewed meets 0 planned idle in
    let same : r.new ≡ (work meets 0 planned idle).history = sym r.history in
    (
      plan-IsRanked findings,
      λ p. count-plan p findings,
      rw same at r.tasks,
      rw same at r.received,
      rw (same, sym r.orders) at r.reviewed,
    )

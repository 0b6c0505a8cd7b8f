-- ===== src/Chat/Turn.antt =====
-- `agent_proxy` and `_agent_turn` of ui/server.py over two tables of the session lease: the shared
-- backend, whose calls may raise, and the table of the process, on which the engine falls back
-- (ui/session_lock.py). A call that raises leaves its table as it was. What others do with the tables
-- in the meantime is a list of events at each place. The trail of a turn starts with the session as
-- the turn's read of the rows gave it.
pub mod Locked
pub mod Served
pub mod Released
use finchat.Base.{
  ℕ, String, Bool, true, false, ◌&&◌, ◌||◌, not, Option, none, some, List, [], ◌∷◌, map,
  if◌then◌else◌, leb,
}
use finchat.Oauth.Config.{filled}
use finchat.Lease.Backend.{Entry, Backend}
use finchat.Lease.Runs.{Event, run}
use finchat.Lease.Acquire.{Route, shared, in_process}
use finchat.Safety.Signals.{Thresholds, TurnSignals}
use finchat.Safety.State.{Action, SessionState, fresh}
use finchat.Safety.Verdict.{Reply, classify}
use finchat.Safety.Screen.{Trail, Source, fold_concurrent, observed, screen}
use finchat.Chat.Armor.{Screening}
use finchat.Chat.Events.{filter_class}
use finchat.Chat.Message.{
  Settings, Message, is_asked, Request, Upstream, Others, Round, Meets, Response, read_state,
  classified, string, other, one_at_a_time, prompt_blocked, response_withheld, handed_off, answer,
  raised, waiting,
}

-- `b` is the shared backend and `m` the table of the process; `fromisoformat` of a registered time,
-- where it can be read.
module _ (b m : Backend) (read_ts : String → Option ℕ) (cfg : Settings) where
  pub record Store : Type 0 where
    pub common : b.State
    pub own : m.State

  unfoldable pub pass : Others → Store → Store
  pass o s = record { common = run b o.on_common s.common; own = run m o.on_own s.own }

  -- What a turn leaves: the response, whether the agent was asked, the row of the conversation log,
  -- the leases, and the session's turns.
  pub record Left : Type 0 where
    pub response : Response
    pub asked : Bool
    pub logged : Option (Message × Message)
    pub store : Store
    pub trail : Trail

  abbrev times : List Entry → List (Option ℕ)
  times entries = map (λ (e : Entry). read_ts e.ts) entries

  -- `drain_pending` on the backend of the lease, where the turn runs under one.
  unfoldable pub drain_on : Option Route → String → Store → List (Option ℕ) × Store
  drain_on none key s = ([], s)
  drain_on (some shared) key s =
      let (entries, s') = b.drain_pending key s.common in (times entries, record s { common = s' })
  drain_on (some in_process) key s =
      let (entries, s') = m.drain_pending key s.own in (times entries, record s { own = s' })

  -- `lease.drain()`: no turns where it raises.
  unfoldable pub drain_leased : Bool → Option Route → String → Store → List (Option ℕ) × Store
  unfolding drain_on
  drain_leased raises lease key s = if raises then ([], s) else drain_on lease key s

  -- The second fold of the drained turns, which is left out where `classify` raised.
  unfoldable pub drain_behind :
      Option Route → Request → Meets → Option TurnSignals → Store → List (Option ℕ) × Store
  unfolding drain_leased
  drain_behind lease r w none s = ([], s)
  drain_behind lease r w (some turn) s = drain_leased w.between_raises lease r.session_key s

  -- `_safety_screen`, with its two drains.
  unfoldable pub safety_screen :
      Option Route → Request → Meets → Source → Store → Trail → Option Action × (Store × Trail)
  unfolding drain_leased drain_behind
  safety_screen lease r w source s trail =
      let (before, s₁) = drain_leased w.before_raises lease r.session_key (pass w.before s) in
      let locked = (fold_concurrent cfg.thresholds w.now before trail).state.quarantined in
      let (after, s₂) = drain_behind lease r w (observed source locked w.now) (pass w.between s₁) in
      let (o, trail') = screen cfg.thresholds cfg.fail_closed w.now before after source trail in
      if cfg.signals_enabled then (o, (s₂, trail')) else (none, (s, trail))

  -- `_override(o)` where there is an action, and the response otherwise.
  unfoldable pub overridden : Option Action → Response → Response
  overridden none response = response
  overridden (some action) response = handed_off action

  -- A block of Model Armor, on the prompt or on the response.
  unfoldable pub blocked :
      Bool → Option Route → Request → Meets → List String → Response → Store → Trail → Left
  unfolding safety_screen overridden
  blocked asked lease r w filters response s trail =
      let (o, (s', trail')) =
        safety_screen lease r w (Source.armor (some (filter_class filters))) s trail in
      record {
        response = overridden o response;
        asked = asked;
        logged = none;
        store = s';
        trail = trail';
      }

  -- The turn of an answer that Model Armor let through.
  unfoldable pub delivered : Option Route → Request → Meets → Upstream → Store → Trail → Left
  unfolding safety_screen overridden
  delivered lease r w u s trail =
      let (o, (s', trail')) =
        safety_screen lease r w (Source.classifier (classified w w.verdict)) s trail in
      record {
        response = overridden o (answer u);
        asked = true;
        logged = if is_asked r.question then some (r.question, u.answer) else none;
        store = s';
        trail = trail';
      }

  -- Behind the screening of the response, which lets the answer pass where it raises.
  unfoldable pub screened_response :
      Option Route → Request → Meets → Upstream → Option Screening → Store → Trail → Left
  unfolding blocked delivered
  screened_response lease r w u none s trail = delivered lease r w u s trail
  screened_response lease r w u (some screening) s trail =
      if screening.allowed
      then delivered lease r w u s trail
      else blocked true lease r w screening.filters response_withheld s trail

  unfoldable pub proxied : Option Route → Request → Meets → Option Upstream → Store → Trail → Left
  unfolding screened_response
  proxied lease r w none s trail = record {
    response = raised;
    asked = true;
    logged = none;
    store = s;
    trail = trail;
  }
  proxied lease r w (some u) s trail = screened_response lease r w u w.response s trail

  unfoldable pub agent_turn : Option Route → Request → Meets → Store → Trail → Left
  unfolding blocked proxied
  agent_turn lease r w s trail =
      if r.has_body && not w.prompt.allowed
      then blocked false lease r w w.prompt.filters prompt_blocked s trail
      else proxied lease r w w.upstream s trail

  -- What the wait for the lease came to.
  pub data Wait : Type 0 where
    under_lease : Route → Wait
    turned_away : Wait
    unfinished : Wait

  unfoldable pub try_own : Request → Round → Store → (Bool × Store) × Route
  try_own r round s =
      let (got, s') = m.try_acquire r.session_key r.holder cfg.ttl round.now round.later s.own in
      ((got, record s { own = s' }), in_process)

  -- `try_acquire` of one round; the rest of the wait is on the table of the process when it raises.
  unfoldable pub attempt : Request → Round → Route → Store → (Bool × Store) × Route
  unfolding try_own
  attempt r round in_process s = try_own r round s
  attempt r round shared s =
      let (got, s') = b.try_acquire r.session_key r.holder cfg.ttl round.now round.later s.common in
      if round.raises then try_own r round s else ((got, record s { common = s' }), shared)

  -- The loop of `acquire`.
  unfoldable pub await_lease : Request → List Round → Route → Store → Wait × Store
  unfolding attempt pass
  await_lease r [] route s = (unfinished, s)
  await_lease r (round ∷ rounds) route s =
      let ((got, s'), route') = attempt r round route (pass round.meanwhile s) in
      let rest = await_lease r rounds route' s' in
      if got
      then (under_lease route', s')
      else if leb cfg.deadline round.after
      then (turned_away, s')
      else rest

  -- `register_concurrent`: on the table of the process where the shared backend raises.
  unfoldable pub register_concurrent : Bool → String → Entry → Store → Store
  register_concurrent raises key entry s =
      if raises
      then record s { own = m.register_pending key entry s.own }
      else record s { common = b.register_pending key entry s.common }

  -- The turn that is turned away is registered for the holder of the lease, and logged.
  unfoldable pub turn_away : Request → Meets → Store → Trail → Left
  unfolding register_concurrent
  turn_away r w s trail = record {
    response = one_at_a_time;
    asked = false;
    logged = some (r.question, string "");
    store =
        register_concurrent w.register_raises r.session_key
          (record { conversation_id = r.conversation_id; ts = w.stamp }) s;
    trail = trail;
  }

  unfoldable pub release_on : Route → String → String → Store → Store
  release_on shared key holder s = record s { common = b.release key holder s.common }
  release_on in_process key holder s = record s { own = m.release key holder s.own }

  -- `finally: await sess["lease"].release()`: the lease stays until its end where it raises.
  unfoldable pub released : Bool → Route → Request → Left → Left
  unfolding release_on
  released raises route r l =
      if raises then l else record l { store = release_on route r.session_key r.holder l.store }

  unfoldable pub after_wait : Request → Meets → Trail → Wait × Store → Left
  unfolding agent_turn turn_away released
  after_wait r w trail (under_lease route, s) =
      released w.release_raises route r (agent_turn (some route) r w s trail)
  after_wait r w trail (turned_away, s) = turn_away r w s trail
  after_wait r w trail (unfinished, s) = record {
    response = waiting;
    asked = false;
    logged = none;
    store = s;
    trail = trail;
  }

  unfoldable pub agent_proxy : Request → Meets → Store → Option SessionState → Left
  unfolding await_lease after_wait agent_turn
  agent_proxy r w s read =
      if cfg.signals_enabled && is_asked r.question
      then after_wait r w (read_state read) (await_lease r w.rounds shared s)
      else agent_turn none r w s (read_state read)

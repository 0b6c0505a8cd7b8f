-- ===== src/Chat/Turn/Locked.antt =====
-- What a locked session is served on the agent path.
use finchat.Base.{
  ℕ, ◌+◌, ◌≤◌, ◌≡◌, refl, ◌⊎◌, inl, inr, String, Bool, true, false, ◌&&◌, not, Option, none, some,
  List, [], length, arith, if-intro, if-true, length-map, ap, ◌∙◌,
}
use finchat.Lease.Backend.{Entry, Backend}
use finchat.Lease.Acquire.{Route, shared, in_process}
use finchat.Safety.Signals.{certain}
use finchat.Safety.State.{SessionState, quarantine}
use finchat.Safety.Screen.{Trail, Source}
use finchat.Safety.Screen.Outcome.{IsOpenOrLocked, screen_burst, screen_locked}
use finchat.Chat.Armor.{Screening}
use finchat.Chat.Message.{
  Settings, Request, Upstream, Meets, Response, prompt_blocked, response_withheld, handed_off,
  answer, is_asked, read_state,
}
use finchat.Chat.Turn.{
  Store, pass, Left, drain_on, drain_leased, safety_screen, overridden, blocked, delivered,
  screened_response, proxied, agent_turn, Wait, under_lease, turned_away, unfinished, await_lease,
  turn_away, released, after_wait, agent_proxy,
}

-- A response that gives away nothing of the agent's answer and does not explain a block.
abbrev pub IsLockedResponse : Response → Type 0
IsLockedResponse (handed_off a) = a ≡ quarantine
IsLockedResponse (answer u) = ⊥
IsLockedResponse prompt_blocked = ⊥
IsLockedResponse response_withheld = ⊥
IsLockedResponse _ = Unit

module _ (b m : Backend) (read_ts : String → Option ℕ) (cfg : Settings) (r : Request)
    (w : Meets) where
  pub record LockedOut (l : Left b m read_ts cfg) : Type 0 where
    pub locked_out : IsLockedResponse l.response

  -- The session is locked, or the turns that wait to be counted lock it.
  abbrev Locks : Option Route → Store b m read_ts cfg → Trail → Type 0
  Locks lease s trail =
      (source : Source)
      → (safety_screen b m read_ts cfg lease r w source s trail).0 ≡ some quarantine

  blocked-LockedOut :
      (asked : Bool) (lease : Option Route) (filters : List String) (response : Response)
      (s : Store b m read_ts cfg) (trail : Trail)
      → Locks lease s trail
      → LockedOut (blocked b m read_ts cfg asked lease r w filters response s trail)
  unfolding blocked overridden
  blocked-LockedOut asked lease filters response s trail locks = record {
    locked_out = rw (locks _) refl;
  }

  delivered-LockedOut :
      (lease : Option Route) (u : Upstream) (s : Store b m read_ts cfg) (trail : Trail)
      → Locks lease s trail
      → LockedOut (delivered b m read_ts cfg lease r w u s trail)
  unfolding delivered overridden
  delivered-LockedOut lease u s trail locks = record { locked_out = rw (locks _) refl }

  screened_response-LockedOut :
      (lease : Option Route) (u : Upstream) (found : Option Screening) (s : Store b m read_ts cfg)
      (trail : Trail)
      → Locks lease s trail
      → LockedOut (screened_response b m read_ts cfg lease r w u found s trail)
  unfolding screened_response
  screened_response-LockedOut lease u none s trail locks = delivered-LockedOut lease u s trail locks
  screened_response-LockedOut lease u (some screening) s trail locks =
      if-intro LockedOut screening.allowed (delivered-LockedOut lease u s trail locks)
        (blocked-LockedOut true lease screening.filters response_withheld s trail locks)

  proxied-LockedOut :
      (lease : Option Route) (found : Option Upstream) (s : Store b m read_ts cfg) (trail : Trail)
      → Locks lease s trail
      → LockedOut (proxied b m read_ts cfg lease r w found s trail)
  unfolding proxied
  proxied-LockedOut lease none s trail locks = record { locked_out = tt }
  proxied-LockedOut lease (some u) s trail locks =
      screened_response-LockedOut lease u w.response s trail locks

  agent_turn-LockedOut :
      (lease : Option Route) (s : Store b m read_ts cfg) (trail : Trail)
      → Locks lease s trail
      → LockedOut (agent_turn b m read_ts cfg lease r w s trail)
  unfolding agent_turn
  agent_turn-LockedOut lease s trail locks =
      if-intro LockedOut (r.has_body && not w.prompt.allowed)
        (blocked-LockedOut false lease w.prompt.filters prompt_blocked s trail locks)
        (proxied-LockedOut lease w.upstream s trail locks)

  after_wait-LockedOut :
      (trail : Trail) (wait : Wait b m read_ts cfg × Store b m read_ts cfg)
      → ((route : Route) → wait.0 ≡ under_lease route → Locks (some route) wait.1 trail)
      → LockedOut (after_wait b m read_ts cfg r w trail wait)
  unfolding after_wait released turn_away
  after_wait-LockedOut trail (under_lease route, s) locks =
      let out = agent_turn-LockedOut (some route) s trail (locks route refl) in
      if-intro LockedOut w.release_raises out (record { locked_out = out.locked_out })
  after_wait-LockedOut trail (turned_away, s) locks = record { locked_out = tt }
  after_wait-LockedOut trail (unfinished, s) locks = record { locked_out = tt }

  Locks-locked :
      (lease : Option Route) (s : Store b m read_ts cfg) (trail : Trail)
      → cfg.signals_enabled ≡ true
      → trail.state.quarantined ≡ true
      → Locks lease s trail
  unfolding safety_screen
  Locks-locked lease s trail on locked source =
      rw on (screen_locked cfg.thresholds cfg.fail_closed w.now _ _ source trail locked)

  -- The turns that wait for the holder of the lease on its table when it counts them.
  abbrev pub waiting_turns : Wait b m read_ts cfg × Store b m read_ts cfg → List Entry
  waiting_turns (under_lease shared, s) =
      b.pending_of r.session_key (pass b m read_ts cfg w.before s).common
  waiting_turns (under_lease in_process, s) =
      m.pending_of r.session_key (pass b m read_ts cfg w.before s).own
  waiting_turns (_, s) = []

  length-drained :
      (route : Route) (s : Store b m read_ts cfg)
      → w.before_raises ≡ false
      → length
          (drain_leased b m read_ts cfg w.before_raises
            (some route)
            r.session_key
            (pass b m read_ts cfg w.before s)).0
        ≡ length (waiting_turns (under_lease route, s))
  unfolding drain_leased drain_on
  length-drained shared s answered =
      rw answered (length-map _ _ ∙ ap length (b.drain_pending-result r.session_key _))
  length-drained in_process s answered =
      rw answered (length-map _ _ ∙ ap length (m.drain_pending-result r.session_key _))

  Locks-burst :
      (route : Route) (s : Store b m read_ts cfg) (trail : Trail)
      → cfg.signals_enabled ≡ true
      → cfg.thresholds.med ≤ certain
      → IsOpenOrLocked cfg.thresholds trail.state
      → w.before_raises ≡ false
      → cfg.thresholds.security_quarantine
        ≤ trail.state.security_hits + length (waiting_turns (under_lease route, s))
      → Locks (some route) s trail
  unfolding safety_screen
  Locks-burst route s trail on med below answered enough source = rw on (
      screen_burst cfg.thresholds cfg.fail_closed w.now _ _ source trail med below
        (rw (length-drained route s answered) enough))

  abbrev pub awaited : Store b m read_ts cfg → Wait b m read_ts cfg × Store b m read_ts cfg
  awaited s = await_lease b m read_ts cfg r w.rounds shared s

  route_of :
      {route route' : Route}
      → ◌≡◌ {A = Wait b m read_ts cfg} (under_lease route) (under_lease route')
      → route ≡ route'
  route_of e = cc

  after_wait-burst :
      (trail : Trail) (wait : Wait b m read_ts cfg × Store b m read_ts cfg)
      → cfg.signals_enabled ≡ true
      → cfg.thresholds.med ≤ certain
      → IsOpenOrLocked cfg.thresholds trail.state
      → w.before_raises ≡ false
      → cfg.thresholds.security_quarantine ≤ trail.state.security_hits + length (waiting_turns wait)
      → LockedOut (after_wait b m read_ts cfg r w trail wait)
  after_wait-burst trail (under_lease route, s) on med below answered enough =
      after_wait-LockedOut trail (under_lease route, s)
        (λ route' e. rw⁻¹ (route_of e) (Locks-burst route s trail on med below answered enough))
  after_wait-burst trail (turned_away, s) on med below answered enough =
      after_wait-LockedOut trail (turned_away, s) (λ route' e. cc)
  after_wait-burst trail (unfinished, s) on med below answered enough =
      after_wait-LockedOut trail (unfinished, s) (λ route' e. cc)

  -- With safety signals on, a message of a session that its read shows as locked, or that the turns
  -- turned away before lock, gets the quarantine hand-off on the agent path, or is turned away, still
  -- waits or meets a proxy that raises; it is never served an answer of the agent, nor told of a
  -- block. A read that fails shows a fresh session. The turns turned away lock the session if the
  -- message is no empty text, the first drain does not raise, the medium threshold is at most
  -- certainty, the hits as read are below the threshold of the lock unless the session is locked,
  -- and with the turns that wait on the table of the lease they reach it.
  pub agent_proxy_locked :
      (s : Store b m read_ts cfg) (read : Option SessionState)
      → cfg.signals_enabled ≡ true
      → ((read_state read).state.quarantined ≡ true)
        ⊎ ((is_asked r.question ≡ true)
            × (w.before_raises ≡ false)
            × (cfg.thresholds.med ≤ certain)
            × IsOpenOrLocked cfg.thresholds (read_state read).state
            × (cfg.thresholds.security_quarantine
                ≤ (read_state read).state.security_hits + length (waiting_turns (awaited s))))
      → IsLockedResponse (agent_proxy b m read_ts cfg r w s read).response
  unfolding agent_proxy
  agent_proxy_locked s read on (inl locked) =
      let trail = read_state read in
      (if-intro LockedOut (cfg.signals_enabled && is_asked r.question)
        (after_wait-LockedOut trail (awaited s)
          (λ route e. Locks-locked (some route) _ trail on locked))
        (agent_turn-LockedOut none s trail (Locks-locked none s trail on locked))).locked_out
  agent_proxy_locked s read on (inr (asked, answered, med, below, enough)) =
      let waited : (cfg.signals_enabled && is_asked r.question) ≡ true = ground arith in
      (if-true LockedOut (cfg.signals_enabled && is_asked r.question) _ _ waited
        (after_wait-burst (read_state read) (awaited s) on med below answered enough)).locked_out

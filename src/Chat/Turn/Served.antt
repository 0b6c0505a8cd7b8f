-- ===== src/Chat/Turn/Served.antt =====
-- What each response of the agent path goes with.
use finchat.Base.{
  ℕ, ◌≡◌, ◌⊎◌, String, Bool, true, false, ◌&&◌, ◌||◌, not, Option, none, some, List, [], ◌∷◌, ◌++◌,
  if◌then◌else◌,
}
use finchat.Lease.Backend.{Entry, Backend}
use finchat.Safety.State.{Action}
use finchat.Safety.Screen.{Trail, Source}
use finchat.Safety.Screen.Recorded.{IsAccounted}
use finchat.Chat.Armor.{Screening}
use finchat.Chat.Events.{filter_class}
use finchat.Chat.Message.{
  Settings, Message, Request, Meets, Response, one_at_a_time, prompt_blocked, response_withheld,
  handed_off, answer, raised, waiting, classified,
}
use finchat.Chat.Turn.{Store, Left}

-- Whether the screening of a response lets it pass: also where it raised.
abbrev pub passes : Option Screening → Bool
passes none = true
passes (some screening) = screening.allowed

-- What a turn is judged by behind the agent: Model Armor where it flagged the response, and the
-- classifier otherwise.
abbrev pub response_source : Meets → Option Screening → Source
response_source w none = Source.classifier (classified w w.verdict)
response_source w (some screening) =
    if screening.allowed
    then Source.classifier (classified w w.verdict)
    else Source.armor (some (filter_class screening.filters))

-- And Model Armor where it blocked the prompt.
abbrev pub turn_source : Request → Meets → Source
turn_source r w =
    if r.has_body && not w.prompt.allowed
    then Source.armor (some (filter_class w.prompt.filters))
    else response_source w w.response

module _ (b m : Backend) (read_ts : String → Option ℕ) (cfg : Settings) (r : Request) (w : Meets)
    (trail : Trail) (waited : Store b m read_ts cfg) where
  -- With safety signals on the outcome and the trail are those of a screened turn, with some
  -- numbers of turns that were turned away; otherwise there is no outcome and nothing is recorded.
  abbrev pub IsCounted : Option Action → Trail → Type 0
  IsCounted o trail' =
      ((cfg.signals_enabled ≡ true)
        × (before : ℕ) × (after : ℕ) × IsAccounted cfg.thresholds w.now before after
            (turn_source r w) trail (o, trail'))
      ⊎ ((cfg.signals_enabled ≡ false) × (o ≡ none) × (trail' ≡ trail))

  abbrev pub this_turn : Entry
  this_turn = record { conversation_id = r.conversation_id; ts = w.stamp }

  -- The turns that wait on the table on which this turn is registered when it is turned away.
  abbrev pub registered_with : Store b m read_ts cfg → List Entry
  registered_with s =
      if w.register_raises
      then m.pending_of r.session_key s.own
      else b.pending_of r.session_key s.common

  -- By the response: whether the agent was asked, the leases and the trail. `waited` is the state of
  -- the leases at the end of the wait.
  abbrev pub IsServed : Response → Bool → Store b m read_ts cfg → Trail → Type 0
  IsServed one_at_a_time asked s trail' =
      (asked ≡ false)
      × (trail' ≡ trail)
      × (registered_with s ≡ registered_with waited ++ this_turn ∷ [])
  IsServed prompt_blocked asked s trail' =
      (asked ≡ false) × (r.has_body ≡ true) × (w.prompt.allowed ≡ false) × IsCounted none trail'
  IsServed response_withheld asked s trail' =
      (asked ≡ true) × (passes w.response ≡ false) × IsCounted none trail'
  IsServed (handed_off a) asked s trail' =
      (asked ≡ (not r.has_body || w.prompt.allowed)) × IsCounted (some a) trail'
  IsServed (answer u) asked s trail' =
      (asked ≡ true)
      × (w.upstream ≡ some u)
      × ((not r.has_body || w.prompt.allowed) ≡ true)
      × (passes w.response ≡ true)
      × IsCounted none trail'
  IsServed raised asked s trail' = (asked ≡ true) × (w.upstream ≡ none) × (trail' ≡ trail)
  IsServed waiting asked s trail' = (asked ≡ false) × (trail' ≡ trail)

  pub record Served (l : Left b m read_ts cfg) : Type 0 where
    pub served : IsServed l.response l.asked l.store l.trail

  record Screened (x : Option Action × (Store b m read_ts cfg × Trail)) : Type 0 where
    counted : IsCounted x.0 x.1.1

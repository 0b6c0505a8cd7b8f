-- ===== src/Chat/Message.antt =====
-- What `agent_proxy` of ui/server.py gets, meets on its way, and answers.
use finchat.Base.{ℕ, String, Bool, true, Option, none, some, List, []}
use finchat.Oauth.Config.{filled}
use finchat.Lease.Runs.{Event}
use finchat.Safety.Signals.{Thresholds, TurnSignals}
use finchat.Safety.State.{Action, SessionState, fresh}
use finchat.Safety.Verdict.{Reply, classify}
use finchat.Safety.Screen.{Trail}
use finchat.Chat.Armor.{Screening}

pub record Settings : Type 0 where
  pub signals_enabled : Bool
  pub fail_closed : Bool
  pub thresholds : Thresholds
  pub ttl : ℕ
  -- of the wait for the lease
  pub deadline : ℕ

-- A message or an answer in JSON: a text, or another value.
pub data Message : Type 0 where
  string : String → Message
  other : Message

-- `b.get("message", "") or ""` leaves no other value that is false.
abbrev pub is_asked : Message → Bool
is_asked (string s) = filled s
is_asked other = true

pub record Request : Type 0 where
  pub has_body : Bool
  pub question : Message
  pub session_key : String
  pub conversation_id : String
  -- drawn for the lease
  pub holder : String

-- What the agent answered: its status, its body, and the answer in it, or the empty text.
pub record Upstream : Type 0 where
  pub status : ℕ
  pub body : String
  pub answer : Message

-- What others do with the two tables.
pub record Others : Type 0 where
  pub on_common : List Event
  pub on_own : List Event

-- One round of the wait for the lease.
pub record Round : Type 0 where
  pub meanwhile : Others
  -- the shared backend raises in it
  pub raises : Bool
  pub now : ℕ
  pub later : ℕ
  pub after : ℕ

-- What a turn meets.
pub record Meets : Type 0 where
  pub rounds : List Round
  -- the time of registration of a turn that is turned away
  pub stamp : String
  pub prompt : Screening
  -- none where the proxy raises
  pub upstream : Option Upstream
  -- none where the screening of the response raises
  pub response : Option Screening
  -- what the classifier's transport gave, and none where `classify` raises; and whether the answer
  -- holds more than blanks
  pub verdict : Option Reply
  pub answered : Bool
  pub now : ℕ
  -- what others do until the pending turns are drained, and until they are drained again
  pub before : Others
  pub between : Others
  -- the calls of the lease that raise
  pub register_raises : Bool
  pub before_raises : Bool
  pub between_raises : Bool
  pub release_raises : Bool

pub data Response : Type 0 where
  -- 429: one message at a time
  one_at_a_time : Response
  -- 400
  prompt_blocked : Response
  -- 502
  response_withheld : Response
  -- 200, with the text of the action instead of an answer
  handed_off : Action → Response
  answer : Upstream → Response
  -- the exception of the proxy
  raised : Response
  -- no round is left
  waiting : Response

-- `_safety_state_task`: a read that fails, or that is not set up, gives a fresh session.
abbrev pub read_state : Option SessionState → Trail
read_state none = record { state = fresh; log = [] }
read_state (some state) = record { state = state; log = [] }

-- What `classify` gives, where it does not raise.
abbrev pub classified : Meets → Option Reply → Option TurnSignals
classified w none = none
classified w (some reply) = some (classify w.answered reply w.now)

-- ===== src/Chat/Tests.antt =====
-- The theorems about the agent path at concrete turns, on the backend of one process.
use finchat.Base.{ℕ, refl, String, true, false, Option, none, some, [], ◌∷◌, arith, inr}
use finchat.Base.Dict.{lookup, insert}
use finchat.Lease.Backend.{contains}
use finchat.Lease.Memory.{memory_backend, empty_memory}
use finchat.Lease.Runs.{Event, acquire, register}
use finchat.Safety.Signals.{default_thresholds}
use finchat.Safety.State.{fresh}
use finchat.Safety.Verdict.{no_verdict}
use finchat.Chat.Armor.{Screening}
use finchat.Chat.Message.{Settings, string, Request, Others, Meets}
use finchat.Chat.Turn.{Store, pass, attempt, await_lease, agent_proxy}
use finchat.Chat.Turn.Locked.{IsLockedResponse, agent_proxy_locked}
use finchat.Chat.Turn.Served.{Served}

abbrev cfg : Settings
cfg = record {
  signals_enabled = true;
  fail_closed = false;
  thresholds = default_thresholds;
  ttl = 120;
  deadline = 8;
}

abbrev message : Request
message = record {
  has_body = true;
  question = string "hello";
  session_key = "s";
  conversation_id = "c1";
  holder = "h1";
}

abbrev clean : Screening
clean = record { allowed = true; reason = "clean"; filters = [] }

abbrev nobody : Others
nobody = record { on_common = []; on_own = [] }

abbrev pending_at : String → Event
pending_at id = register "s" (record { conversation_id = id; ts = "2026-09-19T10:00:01" })

-- The first round comes while another turn has the lease.
abbrev turn : Meets
turn = record {
  rounds =
      record {
        meanwhile = record { on_common = acquire "s" "h2" 5 1 1 ∷ []; on_own = [] };
        raises = false;
        now = 2;
        later = 2;
        after = 2;
      }
      ∷ record { meanwhile = nobody; raises = false; now = 7; later = 7; after = 9 }
      ∷ [];
  stamp = "2026-09-19T10:00:00";
  prompt = clean;
  upstream = some (record { status = 200; body = "{}"; answer = string "hi" });
  response = some clean;
  verdict = some no_verdict;
  answered = true;
  now = 8;
  before = record { on_common = pending_at "c2" ∷ []; on_own = [] };
  between = nobody;
  register_raises = false;
  before_raises = false;
  between_raises = false;
  release_raises = false;
}

abbrev read_ts : String → Option ℕ
read_ts s = none

abbrev armed : Meets
armed = record turn {
  before = record {
    on_common =
        pending_at "c2"
        ∷ pending_at "c3"
        ∷ pending_at "c4"
        ∷ pending_at "c5"
        ∷ pending_at "c6"
        ∷ [];
    on_own = [];
  };
}

abbrev both : Store memory_backend memory_backend read_ts cfg
both = record { common = empty_memory; own = empty_memory }

-- Five turns were turned away while the message was answered.
agent_proxy_locked_example :
    IsLockedResponse
      (agent_proxy memory_backend memory_backend read_ts cfg message armed both
        (some fresh)).response
unfolding lookup insert await_lease attempt pass finchat.Lease.Memory.memory_try_acquire
    finchat.Lease.Memory.memory_pending finchat.Lease.Memory.memory_register finchat.Lease.Runs.run
    finchat.Lease.Runs.step contains
agent_proxy_locked_example =
    agent_proxy_locked memory_backend memory_backend read_ts cfg message armed both (some fresh)
      refl (inr (refl, refl, omega arith, (λ e. omega arith), omega arith))

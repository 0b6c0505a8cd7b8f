-- ===== src/Chat/Turn/Released.antt =====
-- The lease of a session after a turn on the agent path.
use finchat.Base.{ℕ, ◌≡◌, String, Bool, true, false, Option, All, str_eq}
use finchat.Lease.Backend.{Backend, held_by}
use finchat.Lease.Runs.{Event, acquire}
use finchat.Lease.Acquire.{Route, shared, in_process}
use finchat.Chat.Message.{Settings, Request, Others, one_at_a_time}
use finchat.Chat.Turn.{Store, Left, Wait, under_lease, turned_away, unfinished}

-- Another caller's event: it takes no lease for this holder.
abbrev pub IsOthers : String → Event → Type 0
IsOthers holder (acquire k h ttl now later) = str_eq h holder ≡ false
IsOthers holder _ = Unit

module _ (b : Backend) (key holder : String) where
  open b use {State, lease_of}

  -- This holder has no lease on the key.
  abbrev pub IsFree : State → Type 0
  IsFree s = held_by holder (lease_of key s) ≡ false

module _ (b m : Backend) (read_ts : String → Option ℕ) (cfg : Settings) (r : Request) where
  -- The holder has no lease on the table of a route.
  abbrev pub IsFreeAt : Route → Store b m read_ts cfg → Type 0
  IsFreeAt shared s = IsFree b r.session_key r.holder s.common
  IsFreeAt in_process s = IsFree m r.session_key r.holder s.own

  -- The holder has the lease on the table of a route.
  abbrev pub IsHeldAt : Route → Store b m read_ts cfg → Type 0
  IsHeldAt shared s = held_by r.holder (b.lease_of r.session_key s.common) ≡ true
  IsHeldAt in_process s = held_by r.holder (m.lease_of r.session_key s.own) ≡ true

  -- What others do takes no lease for this holder.
  abbrev pub AreOthers : Others → Type 0
  AreOthers o = All (IsOthers r.holder) o.on_common × All (IsOthers r.holder) o.on_own

  -- What the end of the wait leaves: the lease on the table that gave it, or no lease at all.
  abbrev pub IsAwaited : Wait b m read_ts cfg × Store b m read_ts cfg → Type 0
  IsAwaited (under_lease route, s) = IsHeldAt route s
  IsAwaited (turned_away, s) = IsFreeAt shared s × IsFreeAt in_process s
  IsAwaited (unfinished, s) = ⊥

  record Awaited (x : Wait b m read_ts cfg × Store b m read_ts cfg) : Type 0 where
    awaited : IsAwaited x

  -- What one round of the wait leaves.
  record Tried (x : (Bool × Store b m read_ts cfg) × Route) : Type 0 where
    granted : x.0.0 ≡ true → IsHeldAt x.1 x.0.1
    refused : x.0.0 ≡ false → IsFreeAt shared x.0.1 × IsFreeAt in_process x.0.1

  -- What the agent path leaves of the lease, by what the wait came to.
  abbrev pub IsGivenBack :
      Wait b m read_ts cfg × Store b m read_ts cfg → Left b m read_ts cfg → Type 0
  IsGivenBack (under_lease route, s) l = IsFreeAt route l.store
  IsGivenBack (turned_away, s) l =
      (l.response ≡ one_at_a_time) × IsFreeAt shared l.store × IsFreeAt in_process l.store
  IsGivenBack (unfinished, s) l = ⊥

  record GivenBack (x : Wait b m read_ts cfg × Store b m read_ts cfg) (l : Left b m read_ts cfg)
      : Type 0 where
    given_back : IsGivenBack x l

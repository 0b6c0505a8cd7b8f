-- ===== src/Lease/Service.antt =====
-- `backend()` of ui/session_lock.py: which backend a process uses, and what its leases promise.
use finchat.Base.{ℕ, ◌≡◌, String, Bool, ◌||◌, not, some, List, ◌++◌, All, if◌then◌else◌}
use finchat.Lease.Backend.{Backend}
use finchat.Lease.Memory.{memory_backend}
use finchat.Lease.Firestore.{Database}
use finchat.Lease.Firestore.Contract.{firestore_backend}
use finchat.Lease.Runs.{Event, run, Spares, granted_on, drained_on, registered_on, lease_exclusive}
use finchat.Lease.Accounting.{AllDistinct, pending_once}

-- `SAFETY_LOCK_BACKEND=memory`, `GCP_PROJECT`, and whether the client of the database failed.
pub record Settings : Type 0 where
  pub forced_memory : Bool
  pub project : Bool
  pub firestore_failed : Bool

abbrev pub backend : Database → Settings → Backend
backend db settings =
    if settings.forced_memory || (not settings.project || settings.firestore_failed)
    then memory_backend
    else firestore_backend db

-- A lease is exclusive, on either backend: while it runs and its holder does not give it back,
-- whatever acquisitions, releases, registrations and drains are done for any session, the lease
-- stays with its holder and no further lease on its key is granted.
pub session_exclusive :
    (db : Database) (settings : Settings) (key holder : String) (until : ℕ) (events : List Event)
    (s : (backend db settings).State)
    → (backend db settings).lease_of key s ≡ some (holder, until)
    → All (Spares key holder until) events
    → ((backend db settings).lease_of key (run (backend db settings) events s)
        ≡ some (holder, until))
      × (granted_on (backend db settings) key events s ≡ 0)
session_exclusive db settings key holder until events s held spared =
    lease_exclusive (backend db settings) key holder until events s held spared

-- Every turn that is turned away is counted once, on either backend: what the drains of a session
-- return in a run, in their order, and what waits at its end, are the entries that waited at its
-- start and those that were registered in it, each once and in their order. The entries that
-- waited and were registered must differ.
pub session_accounted :
    (db : Database) (settings : Settings) (key : String) (events : List Event)
    (s : (backend db settings).State)
    → AllDistinct ((backend db settings).pending_of key s ++ registered_on key events)
    → drained_on (backend db settings) key events s
        ++ (backend db settings).pending_of key (run (backend db settings) events s)
      ≡ (backend db settings).pending_of key s ++ registered_on key events
session_accounted db settings key events s distinct =
    pending_once (backend db settings) key events s distinct

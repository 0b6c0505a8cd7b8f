-- ===== src/Lease/Progress.antt =====
-- What the leases of ui/session_lock.py promise a session that waits for its turn, and the map that
-- each backend implements.
use finchat.Base.{leb, ℕ, ◌≡◌, refl, ◌∙◌, String, true, false, some, List, arith, All}
use text.Mathlib.TextPositions.{eq_refl}
use finchat.Lease.Backend.{Backend, is_live}
use finchat.Lease.Firestore.{Database}
use finchat.Lease.Service.{Settings, backend}
use finchat.Lease.Runs.{Event, run, Spares, lease_exclusive}

module _ (b : Backend) (key : String) where
  open b use {State, lease_of, pending_of}

  freed :
      (s : State) (holder : String) (until now : ℕ)
      → lease_of key s ≡ some (holder, until)
      → is_live now (lease_of key (b.release key holder s)) ≡ false
  freed s holder until now held =
      rw (b.release-lease key holder s key) (rw (held, eq_refl key, eq_refl holder) refl)

  acquired_exactly :
      (s : State) (holder next : String) (until ttl now later : ℕ)
      → lease_of key s ≡ some (holder, until)
      → (b.try_acquire key next ttl now later s).0 ≡ leb until now
  acquired_exactly s holder next until ttl now later held =
      b.try_acquire-granted key next ttl now later s ∙ rw held (ground arith)

-- A session is never locked out by a lease, on either backend: whatever is done while a lease runs
-- and its holder does not give it back, an acquisition of the key by anybody is granted once the
-- holder gives it back, and without that exactly from the end of the lease on.
pub session_progress :
    (db : Database) (settings : Settings) (key holder : String) (until : ℕ) (events : List Event)
    (s : (backend db settings).State) (next : String) (ttl now later : ℕ)
    → (backend db settings).lease_of key s ≡ some (holder, until)
    → All (Spares key holder until) events
    → let b = backend db settings in
      let s' = run b events s in
      ((b.try_acquire key next ttl now later (b.release key holder s')).0 ≡ true)
      × ((b.try_acquire key next ttl now later s').0 ≡ leb until now)
session_progress db settings key holder until events s next ttl now later held spared =
    let b = backend db settings in
    let s' = run b events s in
    let kept = (lease_exclusive b key holder until events s held spared).0 in
    (
      b.try_acquire-granted key next ttl now later (b.release key holder s')
          ∙ rw (freed b key s' holder until now kept) refl,
      acquired_exactly b key s' holder next until ttl now later kept,
    )

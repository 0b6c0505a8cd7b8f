-- ===== src/Lease/Refines.antt =====
-- What a backend of ui/session_lock.py is to its callers: one table of leases and waiting turns, in
-- which each call is atomic.
use finchat.Base.{
  ℕ, ◌+◌, ◌≡◌, refl, ◌∙◌, ap, String, Bool, true, false, ◌&&◌, none, some, List, [], ◌∷◌, ◌++◌,
  Bool-cases, inl, inr, if◌then◌else◌, str_eq, eq_iff,
}
use finchat.Lease.Backend.{Entry, Held, Backend, is_live, held_by, contains}
use finchat.Lease.Firestore.{Database}
use finchat.Lease.Service.{Settings, backend}
use finchat.Lease.Runs.{Event, acquire, release, register, drain, step}

-- What a caller is told.
pub data Told : Type 0 where
  granted : Bool → Told
  drained : List Entry → Told
  nothing : Told

pub record Table : Type 0 where
  pub lease : String → Held
  pub waiting : String → List Entry

-- A call on the table; a lease runs from one of the two readings of the clock.
unfoldable pub call : (ℕ → ℕ → ℕ) → Event → Table → Told × Table
call start (acquire key holder ttl now later) t = (
  granted (if is_live now (t.lease key) then false else true),
  record t {
    lease = λ k.
        if str_eq key k
        then (if is_live now (t.lease key)
            then t.lease key
            else some (holder, start now later + ttl))
        else t.lease k;
  },
)
call start (release key holder) t = (
  nothing,
  record t {
    lease = λ k. if str_eq key k && held_by holder (t.lease key) then none else t.lease k;
  },
)
call start (register key e) t = (
  nothing,
  record t { waiting = λ k. if str_eq key k then t.waiting k ++ e ∷ [] else t.waiting k },
)
call start (drain key) t =
    (drained (t.waiting key), record t { waiting = λ k. if str_eq key k then [] else t.waiting k })

unfoldable pub calls : (ℕ → ℕ → ℕ) → List Event → Table → List Told
unfolding call
calls start [] t = []
calls start (e ∷ es) t = let (told, t') = call start e t in told ∷ calls start es t'

-- No turn is registered while it waits already: its conversation id is new.
unfoldable pub AllFresh : (ℕ → ℕ → ℕ) → List Event → Table → Type 0
AllFresh start [] t = Unit
AllFresh start (register key e ∷ es) t =
    (contains e (t.waiting key) ≡ false) × AllFresh start es (call start (register key e) t).1
AllFresh start (e ∷ es) t = AllFresh start es (call start e t).1

told_all : {a c : Told} {rest rest' : List Told} → a ≡ c → rest ≡ rest' → a ∷ rest ≡ c ∷ rest'
told_all e f = cc

module _ (b : Backend) where
  open b use {State, lease_of, pending_of, start}

  -- What the backend tells the caller of an event.
  unfoldable pub tell : Event → State → Told
  tell (acquire key holder ttl now later) s = granted (b.try_acquire key holder ttl now later s).0
  tell (release key holder) s = nothing
  tell (register key e) s = nothing
  tell (drain key) s = drained (b.drain_pending key s).0

  unfoldable pub tell_all : List Event → State → List Told
  unfolding tell
  tell_all [] s = []
  tell_all (e ∷ es) s = tell e s ∷ tell_all es (step b e s)

  -- The table is what the state of the backend holds.
  pub record Holds (s : State) (t : Table) : Type 0 where
    pub lease : (k : String) → lease_of k s ≡ t.lease k
    pub waiting : (k : String) → pending_of k s ≡ t.waiting k

  step-Holds-register :
      (key : String) (e : Entry) (s : State) (t : Table)
      → contains e (t.waiting key) ≡ false
      → Holds s t
      → Holds (step b (register key e) s) (call start (register key e) t).1
  unfolding step call
  step-Holds-register key e s t fresh h = record {
    lease = λ k. b.register_pending-lease key e s k ∙ h.lease k;
    waiting = λ k. elim (Bool-cases (str_eq key k)) [
      | inl same ↦
          let path = (eq_iff key k).0 same in
          let grown : pending_of key (b.register_pending key e s) ≡ t.waiting key ++ e ∷ [] =
            b.register_pending-self key e s (rw (h.waiting key) fresh)
            ∙ ap (λ ws. ws ++ e ∷ []) (h.waiting key) in
          rw same (rw path (rw path at grown))
      | inr other ↦ rw other (b.register_pending-other key e s k other ∙ h.waiting k)
    ];
  }

  step-Holds-acquire :
      (key holder : String) (ttl now later : ℕ) (s : State) (t : Table)
      → Holds s t
      → Holds
          (step b (acquire key holder ttl now later) s)
          (call start (acquire key holder ttl now later) t).1
  unfolding step call
  step-Holds-acquire key holder ttl now later s t h = record {
    lease =
        λ k. b.try_acquire-lease key holder ttl now later s k ∙ rw (h.lease key, h.lease k) refl;
    waiting = λ k. b.try_acquire-pending key holder ttl now later s k ∙ h.waiting k;
  }

  step-Holds-release :
      (key holder : String) (s : State) (t : Table)
      → Holds s t
      → Holds (step b (release key holder) s) (call start (release key holder) t).1
  unfolding step call
  step-Holds-release key holder s t h = record {
    lease = λ k. b.release-lease key holder s k ∙ rw (h.lease key, h.lease k) refl;
    waiting = λ k. b.release-pending key holder s k ∙ h.waiting k;
  }

  step-Holds-drain :
      (key : String) (s : State) (t : Table)
      → Holds s t
      → Holds (step b (drain key) s) (call start (drain key) t).1
  unfolding step call
  step-Holds-drain key s t h = record {
    lease = λ k. b.drain_pending-lease key s k ∙ h.lease k;
    waiting = λ k. b.drain_pending-pending key s k ∙ rw (h.waiting k) refl;
  }

  tell_all-calls :
      (es : List Event) (s : State) (t : Table)
      → Holds s t
      → AllFresh start es t
      → tell_all es s ≡ calls start es t
  unfolding tell_all tell calls AllFresh call
  tell_all-calls [] s t h fresh = refl
  tell_all-calls (acquire key holder ttl now later ∷ es) s t h fresh =
      let told : (b.try_acquire key holder ttl now later s).0
          ≡ (if is_live now (t.lease key) then false else true) =
        b.try_acquire-granted key holder ttl now later s ∙ rw (h.lease key) refl in
      told_all (ap granted told)
        (tell_all-calls es _ _ (step-Holds-acquire key holder ttl now later s t h) fresh)
  tell_all-calls (release key holder ∷ es) s t h fresh =
      told_all refl (tell_all-calls es _ _ (step-Holds-release key holder s t h) fresh)
  tell_all-calls (register key e ∷ es) s t h fresh =
      told_all refl (tell_all-calls es _ _ (step-Holds-register key e s t fresh.0 h) fresh.1)
  tell_all-calls (drain key ∷ es) s t h fresh =
      told_all (ap drained (b.drain_pending-result key s ∙ h.waiting key))
        (tell_all-calls es _ _ (step-Holds-drain key s t h) fresh)

-- Either backend answers every sequence of calls, made by any requests for any sessions, as the one
-- table does that it holds at the start: each acquisition is granted or refused, and each drain
-- returns the turns, that the table says. No turn is registered while it waits already.
pub session_refines :
    (db : Database) (settings : Settings) (events : List Event) (s : (backend db settings).State)
    (t : Table)
    → Holds (backend db settings) s t
    → AllFresh (backend db settings).start events t
    → tell_all (backend db settings) events s ≡ calls (backend db settings).start events t
session_refines db settings events s t h fresh =
    tell_all-calls (backend db settings) events s t h fresh

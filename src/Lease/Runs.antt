-- ===== src/Lease/Runs.antt =====
-- Interleavings of requests on one backend: each event is one atomic call, made by any request.
use finchat.Base.{
  ℕ, ◌+◌, ◌<◌, ◌≡◌, refl, ◌∙◌, String, Bool, true, false, ◌&&◌, none, some, List, [], ◌∷◌, ◌++◌,
  arith, if◌then◌else◌, str_eq, eq_iff, Bool-cases, inl, inr, All, lt→ltb,
}
use finchat.Lease.Backend.{Entry, Held, Backend, is_live, held_by}

pub data Event : Type 0 where
  -- key, holder, lifetime, and the two readings of the clock
  acquire : String → String → ℕ → ℕ → ℕ → Event
  release : String → String → Event
  register : String → Entry → Event
  drain : String → Event

-- Whether a call was granted a lease on the key.
abbrev pub grants : Bool → String → String → Bool
grants got key k = got && str_eq key k

module _ (b : Backend) where
  open b use {State, lease_of, pending_of}

  unfoldable pub step : Event → State → State
  step (acquire key holder ttl now later) s = (b.try_acquire key holder ttl now later s).1
  step (release key holder) s = b.release key holder s
  step (register key e) s = b.register_pending key e s
  step (drain key) s = (b.drain_pending key s).1

  unfoldable pub run : List Event → State → State
  run [] s = s
  run (e ∷ es) s = run es (step e s)

  -- How often a lease on `key` was granted in a run.
  unfoldable pub granted_on : String → List Event → State → ℕ
  granted_on key [] s = 0
  granted_on key (acquire k holder ttl now later ∷ es) s =
      let rest = granted_on key es (step (acquire k holder ttl now later) s) in
      if grants (b.try_acquire k holder ttl now later s).0 k key then rest + 1 else rest
  granted_on key (e ∷ es) s = granted_on key es (step e s)

  -- The entries that drains of `key` returned, in order.
  unfoldable pub drained_on : String → List Event → State → List Entry
  drained_on key [] s = []
  drained_on key (drain k ∷ es) s =
      let rest = drained_on key es (step (drain k) s) in
      if str_eq k key then (b.drain_pending k s).0 ++ rest else rest
  drained_on key (e ∷ es) s = drained_on key es (step e s)

-- The entries that were registered for `key`, in order.
unfoldable pub registered_on : String → List Event → List Entry
registered_on key [] = []
registered_on key (register k e ∷ es) =
    let rest = registered_on key es in if str_eq k key then e ∷ rest else rest
registered_on key (_ ∷ es) = registered_on key es

-- The event happens before the lease ends and is not its holder giving it back.
abbrev pub Spares : String → String → ℕ → Event → Type 0
Spares key holder until (acquire k h ttl now later) = now < until
Spares key holder until (release k h) = (str_eq k key && str_eq holder h) ≡ false
Spares key holder until _ = Unit

module _ (f : String → Held) (k key holder : String) (until : ℕ) where
  untaken :
      (now : ℕ) (x : Held)
      → f key ≡ some (holder, until)
      → now < until
      → (if str_eq k key then (if is_live now (f k) then f k else x) else f key)
        ≡ some (holder, until)
  untaken now x held live = elim (Bool-cases (str_eq k key)) [
    | inl same ↦ rw (same, (eq_iff k key).0 same, held, lt→ltb now until live) refl
    | inr other ↦ rw other held
  ]

  unreleased :
      (h : String)
      → f key ≡ some (holder, until)
      → (str_eq k key && str_eq holder h) ≡ false
      → (if str_eq k key && held_by h (f k) then none else f key) ≡ some (holder, until)
  unreleased h held spared = elim (Bool-cases (str_eq k key)) [
    | inl same ↦
        let other : str_eq holder h ≡ false = rw same at spared in
        rw (same, (eq_iff k key).0 same, held, other) refl
    | inr other ↦ rw other held
  ]

  refused :
      (now : ℕ)
      → f key ≡ some (holder, until)
      → now < until
      → grants (if is_live now (f k) then false else true) k key ≡ false
  refused now held live = elim (Bool-cases (str_eq k key)) [
    | inl same ↦ rw ((eq_iff k key).0 same, held, lt→ltb now until live) refl
    | inr other ↦ rw other (ground arith)
  ]

module _ (b : Backend) (key holder : String) (until : ℕ) where
  open b use {State, lease_of}

  step-Spares :
      (e : Event) (s : State)
      → lease_of key s ≡ some (holder, until)
      → Spares key holder until e
      → lease_of key (step b e s) ≡ some (holder, until)
  unfolding step
  step-Spares (acquire k h ttl now later) s held live =
      rw (b.try_acquire-lease k h ttl now later s key)
        (untaken (λ x. lease_of x s) k key holder until now _ held live)
  step-Spares (release k h) s held other =
      rw (b.release-lease k h s key)
        (unreleased (λ x. lease_of x s) k key holder until h held other)
  step-Spares (register k e) s held _ = b.register_pending-lease k e s key ∙ held
  step-Spares (drain k) s held _ = b.drain_pending-lease k s key ∙ held

  -- A lease is exclusive: while it runs and its holder does not give it back, whatever the requests
  -- of any process do to any session, it stays with its holder and no further lease on its key is
  -- granted.
  pub lease_exclusive :
      (es : List Event) (s : State)
      → lease_of key s ≡ some (holder, until)
      → All (Spares key holder until) es
      → (lease_of key (run b es s) ≡ some (holder, until)) × (granted_on b key es s ≡ 0)
  unfolding run granted_on
  lease_exclusive [] s held spared = (held, refl)
  lease_exclusive (acquire k h ttl now later ∷ es) s held (live, spared) =
      let e = acquire k h ttl now later in
      let rest = lease_exclusive es (step b e s) (step-Spares e s held live) spared in
      (
        rest.0,
        rw
            (
              b.try_acquire-granted k h ttl now later s,
              refused (λ x. lease_of x s) k key holder until now held live,
            )
            rest.1,
      )
  lease_exclusive (release k h ∷ es) s held (other, spared) =
      lease_exclusive es _ (step-Spares (release k h) s held other) spared
  lease_exclusive (register k e ∷ es) s held (_, spared) =
      lease_exclusive es _ (step-Spares (register k e) s held tt) spared
  lease_exclusive (drain k ∷ es) s held (_, spared) =
      lease_exclusive es _ (step-Spares (drain k) s held tt) spared

-- ===== src/Lease/Acquire.antt =====
-- `acquire` and `register_concurrent` of ui/session_lock.py, with the fall back on the table of the
-- process when the shared backend fails. What the environment does in each round of the loop (the
-- shared backend's answer and the readings of the clock) is an argument.
use finchat.Base.{
  ℕ, ◌≡◌, refl, String, Bool, true, false, Option, none, some, List, [], ◌∷◌, leb, any,
  if◌then◌else◌, Bool-cases, inl, inr, ◌⊎◌, sym, ◌∙◌, ap,
}
use text.Mathlib.TextPositions.{eq_refl}
use finchat.Base.Dict.{lookup, lookup-insert}
use finchat.Lease.Backend.{is_live, held_by}
use finchat.Lease.Memory.{Memory, memory_try_acquire, memory_lease}

pub record Round : Type 0 where
  -- the shared backend's answer; `none` where it raised
  pub shared : Option Bool
  pub now : ℕ
  pub later : ℕ
  -- the reading that is compared with the deadline
  pub after : ℕ

-- The backend of a lease.
pub data Route : Type 0 where
  shared in_process : Route

pub data Outcome : Type 0 where
  leased : Route → Outcome
  -- None: the wait ran out
  turned_away : Outcome
  -- no round is left
  waiting : Outcome

module _ (key holder : String) (ttl deadline : ℕ) where
  try_memory : Round → Memory → Bool × Memory
  try_memory r m = memory_try_acquire key holder ttl r.now r.later m

  -- The attempt of one round; the backend of this call changes for good when the shared one raises.
  unfoldable pub attempt : Round → Option Bool → Route → Memory → (Bool × Memory) × Route
  unfolding try_memory
  attempt r answer in_process m = (try_memory r m, in_process)
  attempt r none shared m = (try_memory r m, in_process)
  attempt r (some got) shared m = ((got, m), shared)

  unfoldable pub acquire_loop : List Round → Route → Memory → Outcome × Memory
  acquire_loop [] route m = (waiting, m)
  acquire_loop (r ∷ rs) route m =
      let ((got, m'), route') = attempt r r.shared route m in
      let rest = acquire_loop rs route' m' in
      if got then (leased route', m') else if leb deadline r.after then (turned_away, m') else rest

  -- The shared backend refused in each round until it granted the lease in one.
  abbrev pub IsGranted : List Round → Type 0
  IsGranted [] = ⊥
  IsGranted (r ∷ rs) = (r.shared ≡ some true) ⊎ ((r.shared ≡ some false) × IsGranted rs)

  -- The shared backend raised in a round.
  abbrev pub IsRaised : List Round → Type 0
  IsRaised [] = ⊥
  IsRaised (r ∷ rs) = (r.shared ≡ none) ⊎ IsRaised rs

  -- In each round until the deadline had passed the shared backend refused, or the table of the
  -- process had a lease of somebody that had not ended.
  abbrev pub IsRefused : Memory → List Round → Type 0
  IsRefused m [] = ⊥
  IsRefused m (r ∷ rs) =
      ((r.shared ≡ some false) ⊎ (is_live r.now (memory_lease key m) ≡ true))
      × ((leb deadline r.after ≡ true) ⊎ IsRefused m rs)

  -- What the loop promises by how it ends.
  abbrev pub Ends : List Round → Route → Memory → Outcome × Memory → Type 0
  Ends rs route m (leased shared, m') = (route ≡ shared) × IsGranted rs × (m' ≡ m)
  Ends rs route m (leased in_process, m') =
      ((route ≡ in_process) ⊎ IsRaised rs) × (held_by holder (memory_lease key m') ≡ true)
  Ends rs route m (turned_away, m') = IsRefused m rs × (m' ≡ m)
  Ends rs route m (waiting, m') = ⊥

  try_memory_granted :
      (r : Round) (m : Memory)
      → (try_memory r m).0 ≡ true
      → held_by holder (memory_lease key (try_memory r m).1) ≡ true
  unfolding try_memory memory_try_acquire memory_lease
  try_memory_granted r m got = elim (Bool-cases (is_live r.now (lookup key m.leases))) [
    | inl live ↦ cc (rw live at got)
    | inr free ↦ rw free (rw lookup-insert (rw (eq_refl key) (eq_refl holder)))
  ]

  try_memory_refused :
      (r : Round) (m : Memory)
      → (try_memory r m).0 ≡ false
      → (is_live r.now (memory_lease key m) ≡ true) × ((try_memory r m).1 ≡ m)
  unfolding try_memory memory_try_acquire memory_lease
  try_memory_refused r m refused = elim (Bool-cases (is_live r.now (lookup key m.leases))) [
    | inl live ↦ (live, rw live refl)
    | inr free ↦ cc (rw free at refused)
  ]

  -- What one attempt promises.
  abbrev Attempted : Round → Route → Memory → (Bool × Memory) × Route → Type 0
  Attempted r route m ((got, m'), route') =
      (got ≡ true → Ends (r ∷ []) route m (leased route', m'))
      × (got ≡ false
          → ((r.shared ≡ some false) ⊎ (is_live r.now (memory_lease key m) ≡ true)) × (m' ≡ m))
      × (((route' ≡ route) × ((route ≡ shared) → r.shared ≡ some got))
          ⊎ ((route' ≡ in_process) × (r.shared ≡ none)))

  attempt-Attempted :
      (r : Round) (answer : Option Bool) (route : Route) (m : Memory)
      → r.shared ≡ answer
      → Attempted r route m (attempt r answer route m)
  unfolding attempt
  attempt-Attempted r none in_process m e = (
    λ got. (inl refl, try_memory_granted r m got),
    λ missed. (inr (try_memory_refused r m missed).0, (try_memory_refused r m missed).1),
    inl (refl, λ h. cc),
  )
  attempt-Attempted r (some answer) in_process m e = (
    λ got. (inl refl, try_memory_granted r m got),
    λ missed. (inr (try_memory_refused r m missed).0, (try_memory_refused r m missed).1),
    inl (refl, λ h. cc),
  )
  attempt-Attempted r none shared m e = (
    λ got. (inr (inl e), try_memory_granted r m got),
    λ missed. (inr (try_memory_refused r m missed).0, (try_memory_refused r m missed).1),
    inr (refl, e),
  )
  attempt-Attempted r (some answer) shared m e = (
    λ got. (refl, inl (e ∙ ap some got), refl),
    λ missed. (inl (e ∙ ap some missed), refl),
    inl (refl, λ h. e),
  )

  -- A refused round ahead of the others.
  later :
      (r : Round) (rs : List Round) (route route' : Route) (m : Memory) (x : Outcome × Memory)
      → ((route' ≡ route) × ((route ≡ shared) → r.shared ≡ some false))
        ⊎ ((route' ≡ in_process) × (r.shared ≡ none))
      → (r.shared ≡ some false) ⊎ (is_live r.now (memory_lease key m) ≡ true)
      → Ends rs route' m x
      → Ends (r ∷ rs) route m x
  later r rs route route' m (leased shared, m') (inl (same, answer)) refused (h, granted, kept) =
      (sym same ∙ h, inr (answer (sym same ∙ h), granted), kept)
  later r rs route route' m (leased shared, m') (inr (moved, e)) refused (h, granted, kept) =
      cc (moved, h)
  later r rs route route' m (leased in_process, m') (inl (same, answer)) refused (inl h, held) =
      (inl (sym same ∙ h), held)
  later r rs route route' m (leased in_process, m') (inl (same, answer)) refused (inr h, held) =
      (inr (inr h), held)
  later r rs route route' m (leased in_process, m') (inr (moved, e)) refused (h, held) =
      (inr (inl e), held)
  later r rs route route' m (turned_away, m') moved refused (h, kept) = ((refused, inr h), kept)
  later r rs route route' m (waiting, m') moved refused h = h

  -- A round whose attempt was granted ends the wait.
  taken :
      (r : Round) (rs : List Round) (route route' : Route) (m m' : Memory)
      → Ends (r ∷ []) route m (leased route', m')
      → Ends (r ∷ rs) route m (leased route', m')
  taken r rs route shared m m' (h, inl granted, kept) = (h, inl granted, kept)
  taken r rs route shared m m' (h, inr (e, none_left), kept) = absurd none_left
  taken r rs route in_process m m' (inl h, held) = (inl h, held)
  taken r rs route in_process m m' (inr (inl e), held) = (inr (inl e), held)
  taken r rs route in_process m m' (inr (inr none_left), held) = absurd none_left

  -- The wait for a lease ends, if the clock passes the deadline in some round of it:
  -- with a lease of the shared backend, if the wait started there, the shared backend granted it in
  -- a round and refused in each round before, and the table of the process is as it was;
  -- with a lease that the table of the process holds for this holder, if the wait started there or
  -- the shared backend raised in a round;
  -- or turned away, with the table as it was, if in each round until the deadline had passed the
  -- shared backend refused or the table had a lease that had not ended.
  pub acquire_loop-Ends :
      (rs : List Round) (route : Route) (m : Memory)
      → any (λ r. leb deadline r.after) rs ≡ true
      → Ends rs route m (acquire_loop rs route m)
  unfolding acquire_loop
  acquire_loop-Ends [] route m e = cc
  acquire_loop-Ends (r ∷ rs) route m e =
      let tried = attempt-Attempted r r.shared route m refl in
      elim (Bool-cases (attempt r r.shared route m).0.0) [
        | inl got ↦ rw got (taken r rs route _ m _ (tried.0 got))
        | inr missed ↦
            let (refused, kept) = tried.1 missed in
            rw missed (elim (Bool-cases (leb deadline r.after)) [
              | inl past ↦ rw past ((refused, inl past), kept)
              | inr early ↦ rw early (
                  rw kept (
                    later r rs route (attempt r r.shared route m).1 m _ (rw missed at tried.2)
                      refused
                      (acquire_loop-Ends rs (attempt r r.shared route m).1 m (rw early at e))))
            ])
      ]

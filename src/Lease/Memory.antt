-- ===== src/Lease/Memory.antt =====
-- `MemoryBackend`: one process, each method under the mutex.
use finchat.Base.{
  ℕ, ◌+◌, ◌≡◌, refl, String, Bool, true, false, ◌&&◌, none, some, List, [], ◌∷◌, ◌++◌, arith,
  if◌then◌else◌, str_eq, eq_iff,
}
use text.Mathlib.TextPositions.{eq_refl}
use finchat.Base.Dict.{Dict, lookup, insert, erase, get_or, lookup-insert, lookup-erase}
use finchat.Lease.Backend.{Entry, Held, Backend, is_live, held_by}

pub record Memory : Type 0 where
  pub leases : Dict (String × ℕ)
  pub pending : Dict (List Entry)

abbrev pub empty_memory : Memory
empty_memory = record { leases = []; pending = [] }

unfoldable pub memory_lease : String → Memory → Held
memory_lease key m = lookup key m.leases

unfoldable pub memory_pending : String → Memory → List Entry
memory_pending key m = get_or [] (lookup key m.pending)

unfoldable pub memory_try_acquire : String → String → ℕ → ℕ → ℕ → Memory → Bool × Memory
memory_try_acquire key holder ttl now later m =
    if is_live now (lookup key m.leases)
    then (false, m)
    else (true, record m { leases = insert key (holder, later + ttl) m.leases })

unfoldable pub memory_release : String → String → Memory → Memory
memory_release key holder m =
    if held_by holder (lookup key m.leases) then record m { leases = erase key m.leases } else m

-- `self._pending.setdefault(key, []).append(entry)`
unfoldable pub memory_register : String → Entry → Memory → Memory
memory_register key e m = record m {
  pending = insert key (get_or [] (lookup key m.pending) ++ e ∷ []) m.pending;
}

-- `self._pending.pop(key, [])`
unfoldable pub memory_drain : String → Memory → List Entry × Memory
memory_drain key m = (get_or [] (lookup key m.pending), record m { pending = erase key m.pending })

module _ (key : String) (m : Memory) where
  pub granted :
      (holder : String) (ttl now later : ℕ)
      → (memory_try_acquire key holder ttl now later m).0
        ≡ (if is_live now (memory_lease key m) then false else true)
  unfolding memory_try_acquire memory_lease
  granted holder ttl now later = ground arith

  pub acquired_lease :
      (holder : String) (ttl now later : ℕ) (k : String)
      → memory_lease k (memory_try_acquire key holder ttl now later m).1 ≡ (
          if str_eq key k
          then (if is_live now (memory_lease key m)
              then memory_lease key m
              else some (holder, later + ttl))
          else memory_lease k m)
  unfolding memory_try_acquire memory_lease
  acquired_lease holder ttl now later k =
      ground (arith, lookup-insert key k (holder, later + ttl) m.leases, eq_iff key k)

  pub acquired_pending :
      (holder : String) (ttl now later : ℕ) (k : String)
      → memory_pending k (memory_try_acquire key holder ttl now later m).1 ≡ memory_pending k m
  unfolding memory_try_acquire memory_pending
  acquired_pending holder ttl now later k = ground arith

  pub released_lease :
      (holder : String) (k : String)
      → memory_lease k (memory_release key holder m)
        ≡ (if str_eq key k && held_by holder (memory_lease key m) then none else memory_lease k m)
  unfolding memory_release memory_lease
  released_lease holder k = ground (arith, lookup-erase key k m.leases, eq_iff key k)

  pub released_pending :
      (holder : String) (k : String)
      → memory_pending k (memory_release key holder m) ≡ memory_pending k m
  unfolding memory_release memory_pending
  released_pending holder k = ground arith

  pub registered_pending :
      (e : Entry) → memory_pending key (memory_register key e m) ≡ memory_pending key m ++ e ∷ []
  unfolding memory_register memory_pending
  registered_pending e = rw lookup-insert (rw eq_refl refl)

  pub registered_other :
      (e : Entry) (k : String)
      → str_eq key k ≡ false
      → memory_pending k (memory_register key e m) ≡ memory_pending k m
  unfolding memory_register memory_pending
  registered_other e k other = rw lookup-insert (rw other refl)

  pub drained_pending :
      (k : String)
      → memory_pending k (memory_drain key m).1 ≡ (if str_eq key k then [] else memory_pending k m)
  unfolding memory_drain memory_pending
  drained_pending k = rw lookup-erase (ground arith)

  pub registered_lease :
      (e : Entry) (k : String) → memory_lease k (memory_register key e m) ≡ memory_lease k m
  unfolding memory_register memory_lease
  registered_lease e k = refl

  pub drained_entries : (memory_drain key m).0 ≡ memory_pending key m
  unfolding memory_drain memory_pending
  drained_entries = refl

  pub drained_lease : (k : String) → memory_lease k (memory_drain key m).1 ≡ memory_lease k m
  unfolding memory_drain memory_lease
  drained_lease k = refl

-- The table in memory keeps the contract.
abbrev pub memory_backend : Backend
memory_backend = record {
  State = Memory;
  start = λ now later. later;
  lease_of = memory_lease;
  pending_of = memory_pending;
  try_acquire = memory_try_acquire;
  release = memory_release;
  register_pending = memory_register;
  drain_pending = memory_drain;
  try_acquire-granted = λ key holder ttl now later m. granted key m holder ttl now later;
  try_acquire-lease = λ key holder ttl now later m k. acquired_lease key m holder ttl now later k;
  try_acquire-pending =
      λ key holder ttl now later m k. acquired_pending key m holder ttl now later k;
  release-lease = λ key holder m k. released_lease key m holder k;
  release-pending = λ key holder m k. released_pending key m holder k;
  register_pending-lease = λ key e m k. registered_lease key m e k;
  register_pending-self = λ key e m new. registered_pending key m e;
  register_pending-other = λ key e m k other. registered_other key m e k other;
  drain_pending-result = λ key m. drained_entries key m;
  drain_pending-lease = λ key m k. drained_lease key m k;
  drain_pending-pending = λ key m k. drained_pending key m k;
}

-- ===== src/Lease/Backend.antt =====
-- The four questions that each backend answers ("Each backend answers the same four questions"),
-- and what the engine relies on: a contract over the lease and the pending entries of a key.
use finchat.Base.{
  ℕ, ◌+◌, ◌≡◌, String, Bool, true, false, ◌&&◌, ◌||◌, Option, none, some, List, [], ◌∷◌, ◌++◌,
  if◌then◌else◌, str_eq, ltb,
}

-- `{"conversation_id": ..., "ts": ...}`
pub record Entry : Type 0 where
  pub conversation_id : String
  pub ts : String

unfoldable pub same_entry : Entry → Entry → Bool
same_entry a b = str_eq a.conversation_id b.conversation_id && str_eq a.ts b.ts

unfoldable pub contains : Entry → List Entry → Bool
contains e [] = false
contains e (x ∷ xs) = same_entry e x || contains e xs

-- A holder and the instant at which its lease ends.
abbrev pub Held : Type 0
Held = Option (String × ℕ)

-- `cur and cur[1] > now`: the lease is taken and has not ended.
abbrev pub is_live : ℕ → Held → Bool
is_live now none = false
is_live now (some (holder, until)) = ltb now until

abbrev pub held_by : String → Held → Bool
held_by holder none = false
held_by holder (some (h, until)) = str_eq h holder

-- `try_acquire` reads the clock for its test, and again for the end of the lease.
pub record Backend : Type 1 where
  pub State : Type 0
  -- from which of the two readings the lease runs
  pub start : ℕ → ℕ → ℕ
  pub lease_of : String → State → Held
  pub pending_of : String → State → List Entry
  pub try_acquire : String → String → ℕ → ℕ → ℕ → State → Bool × State
  pub release : String → String → State → State
  pub register_pending : String → Entry → State → State
  pub drain_pending : String → State → List Entry × State
  pub try_acquire-granted :
      (key holder : String) (ttl now later : ℕ) (s : State)
      → (try_acquire key holder ttl now later s).0
        ≡ (if is_live now (lease_of key s) then false else true)
  pub try_acquire-lease :
      (key holder : String) (ttl now later : ℕ) (s : State) (k : String)
      → lease_of k (try_acquire key holder ttl now later s).1 ≡ (
          if str_eq key k
          then (if is_live now (lease_of key s)
              then lease_of key s
              else some (holder, start now later + ttl))
          else lease_of k s)
  pub try_acquire-pending :
      (key holder : String) (ttl now later : ℕ) (s : State) (k : String)
      → pending_of k (try_acquire key holder ttl now later s).1 ≡ pending_of k s
  pub release-lease :
      (key holder : String) (s : State) (k : String)
      → lease_of k (release key holder s)
        ≡ (if str_eq key k && held_by holder (lease_of key s) then none else lease_of k s)
  pub release-pending :
      (key holder : String) (s : State) (k : String)
      → pending_of k (release key holder s) ≡ pending_of k s
  pub register_pending-lease :
      (key : String) (e : Entry) (s : State) (k : String)
      → lease_of k (register_pending key e s) ≡ lease_of k s
  -- for an entry that is not there yet: a conversation id is drawn anew for each request
  pub register_pending-self :
      (key : String) (e : Entry) (s : State)
      → contains e (pending_of key s) ≡ false
      → pending_of key (register_pending key e s) ≡ pending_of key s ++ e ∷ []
  pub register_pending-other :
      (key : String) (e : Entry) (s : State) (k : String)
      → str_eq key k ≡ false
      → pending_of k (register_pending key e s) ≡ pending_of k s
  pub drain_pending-result : (key : String) (s : State) → (drain_pending key s).0 ≡ pending_of key s
  pub drain_pending-lease :
      (key : String) (s : State) (k : String) → lease_of k (drain_pending key s).1 ≡ lease_of k s
  pub drain_pending-pending :
      (key : String) (s : State) (k : String)
      → pending_of k (drain_pending key s).1 ≡ (if str_eq key k then [] else pending_of k s)

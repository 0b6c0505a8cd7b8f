-- ===== src/Lease/Accounting.antt =====
-- Every turn that is turned away is handed over exactly once.
use finchat.Base.{
  ◌≡◌, refl, sym, ◌∙◌, ap, String, false, ◌||◌, List, [], ◌∷◌, ◌++◌, arith, str_eq, eq_iff,
  Bool-cases, inl, inr, append_assoc, append-nil,
}
use finchat.Lease.Backend.{Entry, Backend, contains, same_entry}
use finchat.Lease.Runs.{
  Event, acquire, release, register, drain, step, run, drained_on, registered_on,
}

-- No entry of the list occurs behind itself.
abbrev pub AllDistinct : List Entry → Type 0
AllDistinct [] = Unit
AllDistinct (e ∷ es) = (contains e es ≡ false) × AllDistinct es

contains-append :
    (e : Entry) (xs ys : List Entry) → contains e (xs ++ ys) ≡ (contains e xs || contains e ys)
unfolding contains
contains-append e [] ys = refl
contains-append e (x ∷ xs) ys = ground (arith, contains-append e xs ys)

same_entry_sym : (a b : Entry) → same_entry a b ≡ same_entry b a
unfolding same_entry
same_entry_sym a b = ground (
  arith,
  eq_iff a.conversation_id b.conversation_id,
  eq_iff b.conversation_id a.conversation_id,
  eq_iff a.ts b.ts,
  eq_iff b.ts a.ts,
)

-- An entry in the middle of a list without repetition is not among those before it.
distinct_middle :
    (xs : List Entry) (e : Entry) (ys : List Entry)
    → AllDistinct (xs ++ e ∷ ys)
    → contains e xs ≡ false
unfolding contains
distinct_middle [] e ys h = refl
distinct_middle (x ∷ xs) e ys h =
    ground
      (arith, distinct_middle xs e ys h.1, contains-append x xs (e ∷ ys), same_entry_sym x e, h.0)

AllDistinct-drop : (xs ys : List Entry) → AllDistinct (xs ++ ys) → AllDistinct ys
AllDistinct-drop [] ys h = h
AllDistinct-drop (x ∷ xs) ys h = AllDistinct-drop xs ys h.1

module _ (b : Backend) (key : String) where
  open b use {State, pending_of}

  -- Nothing is lost and nothing is counted twice: if the entries that wait for a key and those that
  -- a run registers for it are all distinct, what the drains of the run returned, in order, and what
  -- waits at its end are together the entries that waited at its start, then the registered ones in
  -- the order of registration.
  pub pending_once :
      (es : List Event) (s : State)
      → AllDistinct (pending_of key s ++ registered_on key es)
      → drained_on b key es s ++ pending_of key (run b es s)
        ≡ pending_of key s ++ registered_on key es
  unfolding run drained_on registered_on step
  pending_once [] s distinct = sym (append-nil (pending_of key s))
  pending_once (acquire k h ttl now later ∷ es) s distinct =
      let same = b.try_acquire-pending k h ttl now later s key in
      rw same at (pending_once es (step b (acquire k h ttl now later) s) (rw same distinct))
  pending_once (release k h ∷ es) s distinct =
      let same = b.release-pending k h s key in
      rw same at (pending_once es (step b (release k h) s) (rw same distinct))
  pending_once (register k e ∷ es) s distinct = elim (Bool-cases (str_eq k key)) [
    | inl same ↦
        let path = (eq_iff k key).0 same in
        let next = step b (register k e) s in
        let waiting = pending_of key s in
        let rest = registered_on key es in
        let d : AllDistinct (waiting ++ e ∷ rest) = rw same at distinct in
        let grown : pending_of key next ≡ waiting ++ e ∷ [] =
          rw path (b.register_pending-self key e s (distinct_middle waiting e rest d)) in
        rw same (
          pending_once es next (rw grown (rw append_assoc d))
          ∙ rw grown (append_assoc waiting (e ∷ []) rest))
    | inr other ↦
        let kept = b.register_pending-other k e s key other in
        rw other
          (rw kept at (pending_once es (step b (register k e) s) (rw kept (rw other at distinct))))
  ]
  pending_once (drain k ∷ es) s distinct = elim (Bool-cases (str_eq k key)) [
    | inl same ↦
        let path = (eq_iff k key).0 same in
        let next = step b (drain k) s in
        let handed : (b.drain_pending k s).0 ≡ pending_of key s =
          b.drain_pending-result k s ∙ ap (λ x. pending_of x s) path in
        let emptied : pending_of key next ≡ [] = b.drain_pending-pending k s key ∙ rw same refl in
        let d = AllDistinct-drop (pending_of key s) (registered_on key es) distinct in
        let later = rw emptied at (pending_once es next (rw emptied d)) in
        rw (same, handed)
          (append_assoc (pending_of key s) _ _ ∙ ap (λ x. pending_of key s ++ x) later)
    | inr other ↦
        let kept : pending_of key (step b (drain k) s) ≡ pending_of key s =
          b.drain_pending-pending k s key ∙ rw other refl in
        rw other (rw kept at (pending_once es (step b (drain k) s) (rw kept distinct)))
  ]

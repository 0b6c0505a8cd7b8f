-- ===== src/Lease/Firestore.antt =====
-- `FirestoreBackend`: one document per session. The body of each transaction is computed from the
-- snapshot; the database is a parameter, with the documented effect of one committed write.
pub mod Transactions
pub mod Contract
use finchat.Base.{
  ℕ, ◌+◌, ◌≡◌, refl, String, Bool, true, false, ◌&&◌, Option, none, some, List, [], ◌∷◌, ◌++◌,
  arith, if◌then◌else◌, str_eq, eq_iff, Bool-cases, inl, inr, nonempty, ◌∙◌,
}
use text.Mathlib.TextPositions.{eq_refl}
use finchat.Base.Dict.{get_or}
use finchat.Lease.Backend.{Entry, Held, Backend, is_live, held_by, contains}

-- The fields of a document; a field that is missing and one that is None read alike.
pub record Document : Type 0 where
  pub holder : Option String
  pub lease_until : Option ℕ
  pub pending : Option (List Entry)

-- The writes that the transactions make.
pub data Write : Type 0 where
  nothing : Write
  -- `tx.set(ref, {"holder": ..., "lease_until": ...}, merge=True)`
  merge_lease : String → ℕ → Write
  -- `tx.update(ref, {"holder": None, "lease_until": None})`
  clear_lease : Write
  -- `tx.update(ref, {"pending": []})`
  clear_pending : Write
  -- `tx.delete(ref)`
  delete : Write
  -- `set({"pending": ArrayUnion([entry])}, merge=True)`
  union_pending : Entry → Write

-- `snap.to_dict() if snap.exists else {}`
abbrev pub fields : Option Document → Document
fields none = record { holder = none; lease_until = none; pending = none }
fields (some d) = d

abbrev pub union : Entry → List Entry → List Entry
union e xs = if contains e xs then xs else xs ++ e ∷ []

-- What the database's documentation says of one write to a document.
abbrev pub written : Write → Option Document → Option Document
written nothing d = d
written (merge_lease h until) d =
    some (record { holder = some h; lease_until = some until; pending = (fields d).pending })
written clear_lease d =
    some (record { holder = none; lease_until = none; pending = (fields d).pending })
written clear_pending d =
    some (record {
      holder = (fields d).holder;
      lease_until = (fields d).lease_until;
      pending = some [];
    })
written delete d = none
written (union_pending e) d = some (record {
  holder = (fields d).holder;
  lease_until = (fields d).lease_until;
  pending = some (union e (get_or [] (fields d).pending));
})

pub record Database : Type 1 where
  pub Db : Type 0
  pub snapshot : String → Db → Option Document
  pub commit : String → Write → Db → Db
  pub snapshot-commit :
      (key : String) (w : Write) (db : Db) (k : String)
      → snapshot k (commit key w db)
        ≡ (if str_eq key k then written w (snapshot key db) else snapshot k db)

-- The lease that a document holds, where both of its fields are set.
abbrev pub document_lease : Document → Held
document_lease d = elim d.holder [
  | none ↦ none
  | some h ↦ elim d.lease_until [ none ↦ none | some until ↦ some (h, until) ]
]

abbrev pub document_pending : Document → List Entry
document_pending d = get_or [] d.pending

-- The transaction of `try_acquire`: its result, and its write.
unfoldable pub acquire_tx : String → ℕ → ℕ → Option Document → Bool × Write
acquire_tx holder ttl now snap =
    if is_live now (document_lease (fields snap))
    then (false, nothing)
    else (true, merge_lease holder (now + ttl))

-- The transaction of `release`.
unfoldable pub release_tx : String → Option Document → Write
release_tx holder snap = elim (fields snap).holder [
  | none ↦ nothing
  | some h ↦
      if str_eq h holder
      then (if nonempty (document_pending (fields snap)) then clear_lease else delete)
      else nothing
]

-- The transaction of `drain_pending`: its result, and its write.
unfoldable pub drain_tx : Option Document → List Entry × Write
drain_tx snap =
    let pending = document_pending (fields snap) in
    (pending, if nonempty pending then clear_pending else nothing)

module _ (database : Database) where
  open database use {Db, snapshot, commit, snapshot-commit}

  unfoldable pub firestore_lease : String → Db → Held
  firestore_lease key db = document_lease (fields (snapshot key db))

  unfoldable pub firestore_pending : String → Db → List Entry
  firestore_pending key db = document_pending (fields (snapshot key db))

  unfoldable pub firestore_try_acquire : String → String → ℕ → ℕ → Db → Bool × Db
  firestore_try_acquire key holder ttl now db =
      let (got, w) = acquire_tx holder ttl now (snapshot key db) in (got, commit key w db)

  unfoldable pub firestore_release : String → String → Db → Db
  firestore_release key holder db = commit key (release_tx holder (snapshot key db)) db

  unfoldable pub firestore_register : String → Entry → Db → Db
  firestore_register key e db = commit key (union_pending e) db

  unfoldable pub firestore_drain : String → Db → List Entry × Db
  firestore_drain key db =
      let (pending, w) = drain_tx (snapshot key db) in (pending, commit key w db)

-- ===== src/Lease/Firestore/Contract.antt =====
-- `FirestoreBackend` keeps the contract of the backends.
use finchat.Base.{
  ℕ, ◌+◌, ◌≡◌, refl, String, true, false, ◌&&◌, none, some, [], ◌∷◌, ◌++◌, if◌then◌else◌, str_eq,
  eq_iff, Bool-cases, inl, inr, ◌∙◌,
}
use text.Mathlib.TextPositions.{eq_refl}
use finchat.Lease.Backend.{Entry, Backend, is_live, held_by, contains}
use finchat.Lease.Firestore.{
  Document, Write, union_pending, fields, written, Database, document_lease, document_pending,
  drain_tx, firestore_lease, firestore_pending, firestore_try_acquire, firestore_release,
  firestore_register, firestore_drain,
}
use finchat.Lease.Firestore.Transactions.{
  acquire_tx_granted, acquire_tx_lease, acquire_tx_pending, release_tx_lease, release_tx_pending,
  drain_tx_lease, drain_tx_pending, union_new,
}

module _ (database : Database) where
  open database use {Db, snapshot, commit, snapshot-commit}

  -- A commit is seen through the fields of its own document only.
  through_commit :
      {A : Type 0} (f : Document → A) (key : String) (w : Write) (db : Db) (k : String) (a : A)
      → f (fields (written w (snapshot key db))) ≡ a
      → f (fields (snapshot k (commit key w db)))
        ≡ (if str_eq key k then a else f (fields (snapshot k db)))
  through_commit f key w db k a e = elim (Bool-cases (str_eq key k)) [
    | inl same ↦ rw same (rw snapshot-commit (rw same e))
    | inr other ↦ rw other (rw snapshot-commit (rw other refl))
  ]

  -- The same where the write leaves what is seen as it was.
  through_same :
      {A : Type 0} (f : Document → A) (key : String) (w : Write) (db : Db) (k : String)
      → f (fields (written w (snapshot key db))) ≡ f (fields (snapshot key db))
      → f (fields (snapshot k (commit key w db))) ≡ f (fields (snapshot k db))
  through_same f key w db k e = elim (Bool-cases (str_eq key k)) [
    | inl same ↦ rw snapshot-commit (rw same (rw (← (eq_iff key k).0 same) e))
    | inr other ↦ rw snapshot-commit (rw other refl)
  ]

  pub firestore_granted :
      (key holder : String) (ttl now : ℕ) (db : Db)
      → (firestore_try_acquire database key holder ttl now db).0
        ≡ (if is_live now (firestore_lease database key db) then false else true)
  unfolding firestore_try_acquire firestore_lease
  firestore_granted key holder ttl now db = acquire_tx_granted holder ttl now (snapshot key db)

  pub firestore_acquired_lease :
      (key holder : String) (ttl now : ℕ) (db : Db) (k : String)
      → firestore_lease database k (firestore_try_acquire database key holder ttl now db).1 ≡ (
          if str_eq key k
          then (if is_live now (firestore_lease database key db)
              then firestore_lease database key db
              else some (holder, now + ttl))
          else firestore_lease database k db)
  unfolding firestore_try_acquire firestore_lease
  firestore_acquired_lease key holder ttl now db k =
      through_commit document_lease key _ db k _ (acquire_tx_lease holder ttl now (snapshot key db))

  pub firestore_acquired_pending :
      (key holder : String) (ttl now : ℕ) (db : Db) (k : String)
      → firestore_pending database k (firestore_try_acquire database key holder ttl now db).1
        ≡ firestore_pending database k db
  unfolding firestore_try_acquire firestore_pending
  firestore_acquired_pending key holder ttl now db k =
      through_same document_pending key _ db k (acquire_tx_pending holder ttl now (snapshot key db))

  released_when :
      (key holder : String) (db : Db) (k : String)
      → (if str_eq key k
          then (if held_by holder (firestore_lease database key db)
              then none
              else firestore_lease database key db)
          else firestore_lease database k db)
        ≡ (if str_eq key k && held_by holder (firestore_lease database key db)
            then none
            else firestore_lease database k db)
  released_when key holder db k = elim (Bool-cases (str_eq key k)) [
    | inl same ↦ rw same (rw ((eq_iff key k).0 same) refl)
    | inr other ↦ rw other refl
  ]

  pub firestore_released_lease :
      (key holder : String) (db : Db) (k : String)
      → firestore_lease database k (firestore_release database key holder db) ≡ (
          if str_eq key k && held_by holder (firestore_lease database key db)
          then none
          else firestore_lease database k db)
  unfolding firestore_release firestore_lease
  firestore_released_lease key holder db k =
      through_commit document_lease key _ db k _ (release_tx_lease holder (snapshot key db))
      ∙ released_when key holder db k

  pub firestore_released_pending :
      (key holder : String) (db : Db) (k : String)
      → firestore_pending database k (firestore_release database key holder db)
        ≡ firestore_pending database k db
  unfolding firestore_release firestore_pending
  firestore_released_pending key holder db k =
      through_same document_pending key _ db k (release_tx_pending holder (snapshot key db))

  pub firestore_registered_lease :
      (key : String) (e : Entry) (db : Db) (k : String)
      → firestore_lease database k (firestore_register database key e db)
        ≡ firestore_lease database k db
  unfolding firestore_register firestore_lease
  firestore_registered_lease key e db k =
      through_same document_lease key (union_pending e) db k refl

  pub firestore_registered_pending :
      (key : String) (e : Entry) (db : Db)
      → contains e (firestore_pending database key db) ≡ false
      → firestore_pending database key (firestore_register database key e db)
        ≡ firestore_pending database key db ++ e ∷ []
  unfolding firestore_register firestore_pending
  firestore_registered_pending key e db new =
      rw snapshot-commit (rw eq_refl (union_new e (snapshot key db) new))

  pub firestore_registered_other :
      (key : String) (e : Entry) (db : Db) (k : String)
      → str_eq key k ≡ false
      → firestore_pending database k (firestore_register database key e db)
        ≡ firestore_pending database k db
  unfolding firestore_register firestore_pending
  firestore_registered_other key e db k other = rw snapshot-commit (rw other refl)

  pub firestore_drained_entries :
      (key : String) (db : Db)
      → (firestore_drain database key db).0 ≡ firestore_pending database key db
  unfolding firestore_drain firestore_pending drain_tx
  firestore_drained_entries key db = refl

  pub firestore_drained_lease :
      (key : String) (db : Db) (k : String)
      → firestore_lease database k (firestore_drain database key db).1
        ≡ firestore_lease database k db
  unfolding firestore_drain firestore_lease
  firestore_drained_lease key db k =
      through_same document_lease key _ db k (drain_tx_lease (snapshot key db))

  pub firestore_drained_pending :
      (key : String) (db : Db) (k : String)
      → firestore_pending database k (firestore_drain database key db).1
        ≡ (if str_eq key k then [] else firestore_pending database k db)
  unfolding firestore_drain firestore_pending
  firestore_drained_pending key db k =
      through_commit document_pending key _ db k [] (drain_tx_pending (snapshot key db))

  -- Firestore keeps the contract.
  abbrev pub firestore_backend : Backend
  firestore_backend = record {
    State = Db;
    start = λ now later. now;
    lease_of = firestore_lease database;
    pending_of = firestore_pending database;
    try_acquire =
        λ key holder ttl now later db. firestore_try_acquire database key holder ttl now db;
    release = firestore_release database;
    register_pending = firestore_register database;
    drain_pending = firestore_drain database;
    try_acquire-granted = λ key holder ttl now later db. firestore_granted key holder ttl now db;
    try_acquire-lease =
        λ key holder ttl now later db k. firestore_acquired_lease key holder ttl now db k;
    try_acquire-pending =
        λ key holder ttl now later db k. firestore_acquired_pending key holder ttl now db k;
    release-lease = firestore_released_lease;
    release-pending = firestore_released_pending;
    register_pending-lease = firestore_registered_lease;
    register_pending-self = firestore_registered_pending;
    register_pending-other = firestore_registered_other;
    drain_pending-result = firestore_drained_entries;
    drain_pending-lease = firestore_drained_lease;
    drain_pending-pending = firestore_drained_pending;
  }

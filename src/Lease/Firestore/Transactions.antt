-- ===== src/Lease/Firestore/Transactions.antt =====
-- What the transactions of `FirestoreBackend` do to the lease and the pending entries of a document.
use finchat.Base.{
  ℕ, ◌+◌, ◌≡◌, refl, String, true, false, Option, none, some, [], ◌∷◌, ◌++◌, arith, if◌then◌else◌,
  Bool-cases, inl, inr,
}
use finchat.Lease.Backend.{Entry, is_live, held_by, contains}
use finchat.Lease.Firestore.{
  Document, union_pending, fields, written, document_lease, document_pending, acquire_tx,
  release_tx, drain_tx,
}

pub acquire_tx_granted :
    (holder : String) (ttl now : ℕ) (snap : Option Document)
    → (acquire_tx holder ttl now snap).0
      ≡ (if is_live now (document_lease (fields snap)) then false else true)
unfolding acquire_tx
acquire_tx_granted holder ttl now snap = ground arith

pub acquire_tx_lease :
    (holder : String) (ttl now : ℕ) (snap : Option Document)
    → document_lease (fields (written (acquire_tx holder ttl now snap).1 snap)) ≡ (
        if is_live now (document_lease (fields snap))
        then document_lease (fields snap)
        else some (holder, now + ttl))
unfolding acquire_tx
acquire_tx_lease holder ttl now none = refl
acquire_tx_lease holder ttl now (some d) = elim (Bool-cases (is_live now (document_lease d))) [
  | inl live ↦ rw live refl
  | inr free ↦ rw free refl
]

pub acquire_tx_pending :
    (holder : String) (ttl now : ℕ) (snap : Option Document)
    → document_pending (fields (written (acquire_tx holder ttl now snap).1 snap))
      ≡ document_pending (fields snap)
unfolding acquire_tx
acquire_tx_pending holder ttl now none = refl
acquire_tx_pending holder ttl now (some d) = elim (Bool-cases (is_live now (document_lease d))) [
  | inl live ↦ rw live refl
  | inr free ↦ rw free refl
]

pub release_tx_lease :
    (holder : String) (snap : Option Document)
    → document_lease (fields (written (release_tx holder snap) snap)) ≡ (
        if held_by holder (document_lease (fields snap))
        then none
        else document_lease (fields snap))
unfolding release_tx
release_tx_lease holder none = refl
release_tx_lease holder (some d) = ground arith

pub release_tx_pending :
    (holder : String) (snap : Option Document)
    → document_pending (fields (written (release_tx holder snap) snap))
      ≡ document_pending (fields snap)
unfolding release_tx
release_tx_pending holder none = refl
release_tx_pending holder (some d) = ground arith

pub drain_tx_lease :
    (snap : Option Document)
    → document_lease (fields (written (drain_tx snap).1 snap)) ≡ document_lease (fields snap)
unfolding drain_tx
drain_tx_lease none = refl
drain_tx_lease (some d) = ground arith

pub drain_tx_pending :
    (snap : Option Document) → document_pending (fields (written (drain_tx snap).1 snap)) ≡ []
unfolding drain_tx
drain_tx_pending none = refl
drain_tx_pending (some d) = ground arith

pub union_new :
    (e : Entry) (snap : Option Document)
    → contains e (document_pending (fields snap)) ≡ false
    → document_pending (fields (written (union_pending e) snap))
      ≡ document_pending (fields snap) ++ e ∷ []
union_new e snap new = rw new refl

-- ===== src/Oauth/Store/Confined.antt =====
-- A property of all the records of a table, here and in the database.
use finchat.Base.{
  ℕ, ◌≡◌, refl, String, Bool, true, false, Option, none, some, [], ◌∷◌, Bool-cases, inl, inr,
  str_eq, not, ◌&&◌, is_some, ltb, if◌then◌else◌,
}
use finchat.Base.Dict.{Dict, lookup, insert, erase}
use finchat.Oauth.Documents.{Collection, Fetch, raised, missing, exists}
use finchat.Oauth.Store.{Table, put, take_fetched, take_shared, take_record, unexpired}

module _ {A : Type 0} (P : A → Type 0) where
  -- Every value of the dictionary has the property.
  abbrev pub Every : Dict A → Type 0
  Every [] = Unit
  Every ((k, a) ∷ d) = P a × Every d

  abbrev pub OfSome : Option A → Type 0
  OfSome none = Unit
  OfSome (some a) = P a

  pub Every-lookup : (k : String) (d : Dict A) → Every d → OfSome (lookup k d)
  unfolding lookup
  Every-lookup k [] h = tt
  Every-lookup k ((j, a) ∷ d) h = elim (Bool-cases (str_eq j k)) [
    | inl same ↦ rw same h.0
    | inr other ↦ rw other (Every-lookup k d h.1)
  ]

  pub Every-insert : (k : String) (a : A) (d : Dict A) → P a → Every d → Every (insert k a d)
  unfolding insert
  Every-insert k a [] p h = (p, tt)
  Every-insert k a ((j, b) ∷ d) p h = elim (Bool-cases (str_eq j k)) [
    | inl same ↦ rw same (p, h.1)
    | inr other ↦ rw other (h.0, Every-insert k a d p h.1)
  ]

  pub Every-erase : (k : String) (d : Dict A) → Every d → Every (erase k d)
  unfolding erase
  Every-erase k [] h = tt
  Every-erase k ((j, b) ∷ d) h = elim (Bool-cases (str_eq j k)) [
    | inl same ↦ rw same (Every-erase k d h.1)
    | inr other ↦ rw other (h.0, Every-erase k d h.1)
  ]

  module _ (c : Collection A) where
    abbrev pub Stored : c.Db → Type 0
    Stored db = (k : String) (a : A) → c.get k db ≡ exists a → P a

    abbrev pub TableEvery : Table c → Type 0
    TableEvery t = Every t.cached × Stored t.shared

    pub put-TableEvery :
        (durable : Bool) (k : String) (a : A) (t : Table c)
        → P a
        → TableEvery t
        → TableEvery (put c durable k a t)
    unfolding put
    put-TableEvery true k a t p h = (
      Every-insert k a t.cached p h.0,
      λ j b there. elim (c.get-set k a t.shared j b there) [
        | inl new ↦ rw new.1 p
        | inr old ↦ h.1 j b old
      ],
    )
    put-TableEvery false k a t p h = (Every-insert k a t.cached p h.0, h.1)

    Taken : Option A × c.Db → Type 0
    Taken (found, db) = OfSome found × Stored db

    chosen :
        (b : Bool) (found : Option A) (a : A)
        → P a
        → OfSome found
        → OfSome (if b then some a else found)
    chosen true found a p h = p
    chosen false found a p h = h

    OfFetch : Fetch A → Type 0
    OfFetch raised = Unit
    OfFetch missing = Unit
    OfFetch (exists a) = P a

    Stored-get : (k : String) (db : c.Db) (f : Fetch A) → c.get k db ≡ f → Stored db → OfFetch f
    unfolding OfFetch
    Stored-get k db raised e s = tt
    Stored-get k db missing e s = tt
    Stored-get k db (exists a) e s = s k a e

    take_fetched-Taken :
        (k : String) (found : Option A) (db : c.Db) (f : Fetch A)
        → OfFetch f
        → OfSome found
        → Stored db
        → Taken (take_fetched c true k found db f)
    unfolding take_fetched Taken OfFetch
    take_fetched-Taken k found db raised e h s = (h, s)
    take_fetched-Taken k found db missing e h s =
        (h, λ j b there. s j b (c.get-delete k db j b there))
    take_fetched-Taken k found db (exists a) e h s = (
      chosen ((c.delete k db).0 && not (is_some found)) found a e h,
      λ j b there. s j b (c.get-delete k db j b there),
    )

    pub take_record-TableEvery :
        (durable : Bool) (k : String) (t : Table c)
        → TableEvery t
        → OfSome (take_record c durable k t).0 × TableEvery (take_record c durable k t).1
    unfolding take_record take_shared Taken
    take_record-TableEvery true k t h =
        let taken =
          take_fetched-Taken k (lookup k t.cached) (c.meanwhile k t.shared) (c.get k t.shared)
            (Stored-get k t.shared _ refl h.1) (Every-lookup k t.cached h.0)
            (λ j b there. h.1 j b (c.get-meanwhile k t.shared j b there)) in
        (taken.0, (Every-erase k t.cached h.0, taken.1))
    take_record-TableEvery false k t h =
        (Every-lookup k t.cached h.0, (Every-erase k t.cached h.0, h.1))

  pub unexpired-OfSome :
      (expires : A → ℕ) (now : ℕ) (o : Option A) → OfSome o → OfSome (unexpired expires now o)
  unexpired-OfSome expires now none h = tt
  unexpired-OfSome expires now (some a) h = elim (Bool-cases (ltb (expires a) now)) [
    | inl expired ↦ rw expired tt
    | inr live ↦ rw live h
  ]

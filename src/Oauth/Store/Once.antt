-- ===== src/Oauth/Store/Once.antt =====
-- How often a single-use record can be taken.
use finchat.Base.{
  ℕ, ◌≤◌, ◌≡◌, ◌≢◌, refl, String, Bool, true, false, Option, none, some, arith, inl, inr, str_eq,
  ltb,
}
use text.Mathlib.TextPositions.{eq_refl}
use finchat.Base.Dict.{Dict, lookup, lookup-erase, lookup-insert}
use finchat.Oauth.Documents.{Collection, Fetch, raised, missing, exists}
use finchat.Oauth.Store.{Code, Table, put, take_fetched, take_shared, take_record, take_code}

module _ {A : Type 0} (c : Collection A) (key : String) where
  -- The call in the database went through, or none was made.
  abbrev pub IsDone : Bool → c.Db → Type 0
  IsDone durable db =
      durable ≡ true → (c.get key db ≢ raised) × ((c.delete key (c.meanwhile key db)).0 ≡ true)

  abbrev pub Gone : c.Db → Type 0
  Gone db = (r : A) → c.get key db ≢ exists r

  pub take_fetched-Gone :
      (found : Option A) (db : c.Db) (f : Fetch A)
      → f ≢ raised
      → (c.delete key db).0 ≡ true
      → Gone (take_fetched c true key found db f).1
  unfolding take_fetched
  take_fetched-Gone found db raised up done = absurd (up refl)
  take_fetched-Gone found db missing up done = c.get-delete_self key db done
  take_fetched-Gone found db (exists a) up done = c.get-delete_self key db done

  -- Nothing is found where nothing is there.
  pub take_fetched-none :
      (db : c.Db) (f : Fetch A)
      → ((r : A) → f ≢ exists r)
      → (take_fetched c true key none db f).0 ≡ none
  unfolding take_fetched
  take_fetched-none db raised h = refl
  take_fetched-none db missing h = refl
  take_fetched-none db (exists a) h = absurd (h a refl)

  -- The record is nowhere to be found.
  abbrev pub IsSpent : Bool → Table c → Type 0
  IsSpent durable t = (lookup key t.cached ≡ none) × (durable ≡ true → Gone t.shared)

  pub take_record-IsSpent :
      (durable : Bool) (t : Table c)
      → IsDone durable t.shared
      → IsSpent durable (take_record c durable key t).1
  unfolding take_record take_shared
  take_record-IsSpent true t done = (
    rw lookup-erase (rw (eq_refl key) refl),
    λ _.
        take_fetched-Gone (lookup key t.cached) (c.meanwhile key t.shared) (c.get key t.shared)
          (done refl).0 (done refl).1,
  )
  take_record-IsSpent false t done = (rw lookup-erase (rw (eq_refl key) refl), λ e. cc)

  pub take_record-none :
      (durable : Bool) (t : Table c) → IsSpent durable t → (take_record c durable key t).0 ≡ none
  unfolding take_record take_shared
  take_record-none true t spent = rw spent.0 (take_fetched-none _ _ (spent.1 refl))
  take_record-none false t spent = spent.0

  -- Another record does not bring it back.
  pub put-IsSpent :
      (durable : Bool) (other : String) (a : A) (t : Table c)
      → str_eq other key ≡ false
      → IsSpent durable t
      → IsSpent durable (put c durable other a t)
  unfolding put
  put-IsSpent true other a t apart spent = (
    rw lookup-insert (rw apart spent.0),
    λ e r there. elim (c.get-set other a t.shared key r there) [
      | inl same ↦ cc (apart, same.0)
      | inr before ↦ spent.1 e r before
    ],
  )
  put-IsSpent false other a t apart spent = (rw lookup-insert (rw apart spent.0), λ e. cc)

-- Once a code was taken, if the store is not durable or the database answered the `get` and the
-- `delete` of that call, whatever other instances took between the two: taking the code again in the
-- same process gives none at any time, and with a durable store so does taking it in another process
-- that keeps no copy of the code of its own, from the database as the first call left it.
pub take_code_once :
    (codes : Collection Code) (durable : Bool) (code : String) (now later : ℕ) (t : Table codes)
    (others : Dict Code)
    → IsDone codes code durable t.shared
    → lookup code others ≡ none
    → let first = take_code codes durable code now t in
      ((take_code codes durable code later first.1).0 ≡ none)
      × ((durable ≡ true)
          → (take_code codes durable code later
              (record { cached = others; shared = first.1.shared })).0
            ≡ none)
unfolding take_code
take_code_once codes durable code now later t others done no_copy =
    let spent = take_record-IsSpent codes code durable t done in
    (
      rw (take_record-none codes code durable (take_record codes durable code t).1 spent) refl,
      λ shared. rw (take_record-none codes code durable _ (no_copy, spent.1)) refl,
    )

-- Where the database's `delete` raises and leaves the record there, a code that this process issued
-- is redeemed twice: here first, and then from the database by a call whose `delete` returns.
pub take_code_twice :
    (codes : Collection Code) (code : String) (now : ℕ) (t : Table codes) (a : Code)
    → let met = codes.meanwhile code t.shared in
      let kept = (codes.delete code met).1 in
      lookup code t.cached ≡ some a
      → codes.get code t.shared ≡ exists a
      → (codes.delete code met).0 ≡ false
      → codes.get code kept ≡ exists a
      → (codes.delete code (codes.meanwhile code kept)).0 ≡ true
      → now ≤ a.expires_at
      → let first = take_code codes true code now t in
        (first.0 ≡ some a) × ((take_code codes true code now first.1).0 ≡ some a)
unfolding take_code take_record take_shared take_fetched
take_code_twice codes code now t a here there failed left done live =
    let fresh : ltb a.expires_at now ≡ false = ground arith in
    (
      rw (here, there, take_shared, failed) (rw fresh refl),
      rw (lookup-erase, eq_refl code, here, there, take_shared, left, done) (rw fresh refl),
    )

taken_here :
    (codes : Collection Code) (code : String) (db : codes.Db) (f : Fetch Code) (a : Code)
    → (take_fetched codes true code (some a) db f).0 ≡ some a
unfolding take_fetched
taken_here codes code db raised a = refl
taken_here codes code db missing a = refl
taken_here codes code db (exists b) a = ground arith

-- With a durable store, a live code that one process issued, and so keeps a copy of, is redeemed
-- twice although the database answers every call: by another process, which keeps no copy and takes
-- it from the database, and then by the first one from its copy.
pub take_code_replayed :
    (codes : Collection Code) (code : String) (now : ℕ) (t : Table codes) (others : Dict Code)
    (a : Code)
    → lookup code t.cached ≡ some a
    → lookup code others ≡ none
    → codes.get code t.shared ≡ exists a
    → (codes.delete code (codes.meanwhile code t.shared)).0 ≡ true
    → now ≤ a.expires_at
    → let there = take_code codes true code now (record { cached = others; shared = t.shared }) in
      let here = take_code codes true code now (record t { shared = there.1.shared }) in
      (there.0 ≡ some a) × (here.0 ≡ some a)
unfolding take_code take_record take_shared
take_code_replayed codes code now t others a copy no_copy there done live =
    let fresh : ltb a.expires_at now ≡ false = ground arith in
    (
      rw (no_copy, there) (unfold take_fetched in rw done (rw fresh refl)),
      rw (copy, taken_here codes code _ _ a) (rw fresh refl),
    )

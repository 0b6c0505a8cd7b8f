-- ===== src/Oauth/Store.antt =====
-- `Store` of products/mcp_auth/oauth.py: clients, single-use authorization codes and rotating
-- refresh tokens, in memory and, where the shared store was found durable, in the database too.
pub mod Once
pub mod Confined
use finchat.Base.{
  ℕ, ◌+◌, ◌-◌, String, Bool, ◌&&◌, not, Option, none, some, List, [], ◌∷◌, if◌then◌else◌, ltb,
  str_eq, is_some,
}
use finchat.Base.Dict.{Dict, lookup, insert, erase}
use finchat.Oauth.Documents.{Collection, Fetch, raised, missing, exists}

pub record Client : Type 0 where
  pub client_name : String
  pub redirect_uris : List String
  pub created_at : ℕ

pub record Code : Type 0 where
  pub client_id : String
  pub redirect_uri : String
  pub code_challenge : String
  pub email : String
  pub subject : String
  pub resource : String
  pub scope : List String
  pub expires_at : ℕ

-- The record of a refresh token.
pub record Grant : Type 0 where
  pub client_id : String
  pub email : String
  pub subject : String
  pub resource : String
  pub scope : List String
  pub expires_at : ℕ

-- One of the three tables: the copy of this process and the shared collection.
pub record Table {A : Type 0} (c : Collection A) : Type 0 where
  pub cached : Dict A
  pub shared : c.Db

module _ {A : Type 0} (c : Collection A) (durable : Bool) where
  -- `put_client`, `put_code` and the body of `put_refresh`
  unfoldable pub put : String → A → Table c → Table c
  put key a t = record {
    cached = insert key a t.cached;
    shared = if durable then c.set key a t.shared else t.shared;
  }

  -- The `try` block of `take_code` and `take_refresh`, with the record found so far, what `get` did
  -- and the database as the `delete` meets it, where another instance may have come between. Where `get` or `delete` raises, the record from the database is not reached.
  unfoldable pub take_fetched : String → Option A → c.Db → Fetch A → Option A × c.Db
  take_fetched key found db raised = (found, db)
  take_fetched key found db missing = (found, (c.delete key db).1)
  take_fetched key found db (exists a) =
      let (returned, db') = c.delete key db in
      (if returned && not (is_some found) then some a else found, db')

  unfoldable pub take_shared : String → Option A → c.Db → Option A × c.Db
  unfolding take_fetched
  take_shared key found db = take_fetched key found (c.meanwhile key db) (c.get key db)

  -- `pop` here and, if durable, fetch and delete there.
  unfoldable pub take_record : String → Table c → Option A × Table c
  unfolding take_shared
  take_record key t =
      let found = lookup key t.cached in
      let (found', db) = if durable then take_shared key found t.shared else (found, t.shared) in
      (found', record { cached = erase key t.cached; shared = db })

-- `found and found.expires_at < time.time()`
abbrev pub unexpired : {A : Type 0} → (A → ℕ) → ℕ → Option A → Option A
unexpired expires now none = none
unexpired expires now (some a) = if ltb (expires a) now then none else some a

module _ (codes : Collection Code) (durable : Bool) where
  unfoldable pub take_code : String → ℕ → Table codes → Option Code × Table codes
  unfolding take_record
  take_code code now t =
      let (found, t') = take_record codes durable code t in
      (unexpired (λ c. c.expires_at) now found, t')

-- The refresh tokens stand under their digest.
module _ (digest : String → String) (refresh : Collection Grant) (durable : Bool) where
  unfoldable pub put_refresh : String → Grant → Table refresh → Table refresh
  unfolding put
  put_refresh token grant t = put refresh durable (digest token) grant t

  unfoldable pub take_refresh : String → ℕ → Table refresh → Option Grant × Table refresh
  unfolding take_record
  take_refresh token now t =
      let (found, t') = take_record refresh durable (digest token) t in
      (unexpired (λ g. g.expires_at) now found, t')

module _ (clients : Collection Client) (durable : Bool) where
  -- A client read from the database is kept in the process.
  fetched : String → Fetch Client → Table clients → Option Client × Table clients
  fetched client_id raised t = (none, t)
  fetched client_id missing t = (none, t)
  fetched client_id (exists client) t =
      (some client, record t { cached = insert client_id client t.cached })

  unfoldable pub get_client : String → Table clients → Option Client × Table clients
  unfolding fetched
  get_client client_id t = elim (lookup client_id t.cached) [
    | some client ↦ (some client, t)
    | none ↦ if durable then fetched client_id (clients.get client_id t.shared) t else (none, t)
  ]

  abbrev is_stale : String → ℕ → Client → Bool
  is_stale name cutoff client = str_eq client.client_name name && ltb client.created_at cutoff

  prune_cached : String → ℕ → Dict Client → Dict Client × ℕ
  prune_cached name cutoff [] = ([], 0)
  prune_cached name cutoff ((k, client) ∷ rest) =
      let (kept, removed) = prune_cached name cutoff rest in
      if is_stale name cutoff client then (kept, removed + 1) else ((k, client) ∷ kept, removed)

  -- The deletes stop at the first that raises.
  prune_shared : ℕ → List (String × Client) → ℕ → clients.Db → ℕ × clients.Db
  prune_shared cutoff [] removed db = (removed, db)
  prune_shared cutoff ((k, client) ∷ rest) removed db =
      let (returned, db') = clients.delete k db in
      let gone = prune_shared cutoff rest (removed + 1) db' in
      let kept = prune_shared cutoff rest removed db in
      if ltb client.created_at cutoff then (if returned then gone else (removed, db')) else kept

  abbrev prune_named : String → ℕ → ℕ → clients.Db → ℕ × clients.Db
  prune_named name cutoff removed db = elim (clients.named name db) [
    | none ↦ (removed, db)
    | some snaps ↦ prune_shared cutoff snaps removed db
  ]

  unfoldable pub prune_probe_clients : String → ℕ → ℕ → Table clients → ℕ × Table clients
  unfolding prune_cached prune_shared
  prune_probe_clients name older_than now t =
      let (kept, removed) = prune_cached name (now - older_than) t.cached in
      let (total, db) =
        if durable
        then prune_named name (now - older_than) removed t.shared
        else (removed, t.shared) in
      (total, record { cached = kept; shared = db })

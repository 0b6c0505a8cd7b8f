-- ===== src/Oauth/Documents.antt =====
-- The document database behind the store (google.cloud.firestore), as a parameter: a collection of
-- records under string keys whose calls may raise, with the documented effect of each call.
use finchat.Base.{str_eq, ◌≡◌, ◌⊎◌, String, Bool, true, Option, List}

-- What `document(key).get()` does.
pub data Fetch (A : Type 0) : Type 0 where
  raised : Fetch A
  missing : Fetch A
  exists : A → Fetch A

pub record Collection (A : Type 0) : Type 1 where
  pub Db : Type 0
  pub get : String → Db → Fetch A
  -- `set`; where it raises, the caller goes on with what it left
  pub set : String → A → Db → Db
  -- `delete`, and whether it returned
  pub delete : String → Db → Bool × Db
  -- what other instances do with the collection between the `get` and the `delete` of a key: they
  -- may take records, and write none
  pub meanwhile : String → Db → Db
  -- `where("client_name", "==", name).limit(50).stream()`, or none where it raised
  pub named : String → Db → Option (List (String × A))
  pub get-set :
      (k : String) (a : A) (db : Db) (j : String) (r : A)
      → get j (set k a db) ≡ exists r
      → ((str_eq k j ≡ true) × (r ≡ a)) ⊎ (get j db ≡ exists r)
  pub get-meanwhile :
      (k : String) (db : Db) (j : String) (r : A)
      → get j (meanwhile k db) ≡ exists r
      → get j db ≡ exists r
  pub get-delete :
      (k : String) (db : Db) (j : String) (r : A)
      → get j (delete k db).1 ≡ exists r
      → get j db ≡ exists r
  pub get-delete_self :
      (k : String) (db : Db)
      → (delete k db).0 ≡ true
      → (r : A) → get k (delete k db).1 ≡ exists r
      → ⊥

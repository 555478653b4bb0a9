-- ===== src/Redis.antt =====
-- The Redis client that the caches of clients/cache/clients.go and domains/cache/domains.go call, and
-- the errors of pkg/errors/repository that they return.
use text.Mathlib.Text.{◌==◌}
use supermq.Common.{String, ◌≡◌, ◌||◌, Option, none, some, List, [], ◌∷◌, if◌then◌else◌}
use supermq.Errors.{Err, new, not_found, ok}
use supermq.Service.{Action}

-- What GET returns: a value, the nil reply or an error.
pub data Reading : Type 0 where
  value : String → Reading
  nil_reply : Reading
  broken : Err → Reading

-- The calls of the Redis client, as long as no entry expires: GET reads what is stored, SET and DEL
-- change their keys only.
pub record Redis (W : Type 0) : Type 0 where
  pub stored : W → String → Option String
  pub get : String → W → Reading
  pub set : String → String → Action W (Unit {0})
  pub del : List String → Action W (Unit {0})
  pub gets_value : (k v : String) (w : W) → get k w ≡ value v → stored w k ≡ some v
  pub gets_nil : (k : String) (w : W) → get k w ≡ nil_reply → stored w k ≡ none
  pub sets :
      (k v j : String) (w : W)
      → (set k v w).0 ≡ ok tt
      → stored (set k v w).1 j ≡ (if j == k then some v else stored w j)
  pub dels :
      (k l j : String) (w : W)
      → (del (k ∷ l ∷ []) w).0 ≡ ok tt
      → stored (del (k ∷ l ∷ []) w).1 j ≡ (if j == k || j == l then none else stored w j)
  pub dels_one :
      (k j : String) (w : W)
      → (del (k ∷ []) w).0 ≡ ok tt
      → stored (del (k ∷ []) w).1 j ≡ (if j == k then none else stored w j)

abbrev pub repo_create_entity : Err
repo_create_entity = new none "failed to create entity in the db"

abbrev pub repo_remove_entity : Err
repo_remove_entity = new none "failed to remove entity"

abbrev pub repo_missing : Err
repo_missing = new (some not_found) "entity not found"

abbrev pub redis_nil : Err
redis_nil = new none "redis: nil"

-- ===== src/Clients/Cache.antt =====
-- The cache of authenticated clients over Redis, clients/cache/clients.go: every key of a client has
-- its ID, and every ID the key that was saved last.
use Prim.Native.String.{◌++◌ as join}
use text.Mathlib.Text.{◌==◌}
use supermq.Common.{String, ◌||◌, none, [], ◌∷◌, if◌then◌else◌}
use supermq.Errors.{Err, new, wrap, Result, ok, err}
use supermq.Service.{Action, ◌>>◌, pure, fail_if, or_wrap}
pub use supermq.Redis.{
  Reading, value, nil_reply, broken, Redis, repo_create_entity, repo_remove_entity, repo_missing,
  redis_nil,
}

abbrev pub empty_key : Err
empty_key = new none "client key or client id is empty"

-- `fmt.Sprintf("%s:%s", prefix, s)` with the two prefixes.
abbrev pub key_entry : String → String
key_entry key = join "client_key:" key

abbrev pub id_entry : String → String
id_entry id = join "client_id:" id

-- The end of ID.
abbrev pub id_of : Reading → Result String
id_of (value id) = ok id
id_of nil_reply = err (wrap repo_missing redis_nil)
id_of (broken e) = err (wrap repo_missing e)

module _ {W : Type 0} (redis : Redis W) where
  -- Save
  unfoldable pub cache_save : String → String → Action W (Unit {0})
  cache_save key id =
      fail_if (key == "" || id == "") (wrap repo_create_entity empty_key)
      >> (or_wrap repo_create_entity (redis.set (key_entry key) id)
          >> or_wrap repo_create_entity (redis.set (id_entry id) key))

  -- ID
  unfoldable pub cache_id : String → W → Result String
  cache_id key w = if key == "" then err repo_missing else id_of (redis.get (key_entry key) w)

  -- Remove, given what is read of the ID.
  abbrev pub remove_read : String → Reading → Action W (Unit {0})
  remove_read id nil_reply = pure tt
  remove_read id (broken e) = λ w. (err (wrap repo_remove_entity e), w)
  remove_read id (value key) =
      or_wrap repo_remove_entity (redis.del (key_entry key ∷ id_entry id ∷ []))

  -- Remove
  unfoldable pub cache_remove : String → Action W (Unit {0})
  cache_remove id w = remove_read id (redis.get (id_entry id) w) w

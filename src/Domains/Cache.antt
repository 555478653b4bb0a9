-- ===== src/Domains/Cache.antt =====
-- The cache of domains over Redis, domains/cache/domains.go, and the texts of statuses in
-- domains/domains.go. Statuses and IDs are entries under one kind of key.
use text.Mathlib.Text.{◌==◌}
use supermq.Common.{String, ◌||◌, none, [], ◌∷◌, if◌then◌else◌}
use supermq.Errors.{Err, new, wrap, Result, ok, err, wrapping, ◌>>=◌}
use supermq.Service.{Action, ◌>>◌, fail_if, or_wrap, invalid_status}
use supermq.Redis.{
  Reading, value, nil_reply, broken, Redis, repo_create_entity, repo_remove_entity, repo_missing,
  redis_nil,
}
use supermq.Domains.Data.{Status, enabled, disabled, freezed, deleted, all}

abbrev pub empty_domain_id : Err
empty_domain_id = new none "domain ID is empty"

abbrev pub empty_route : Err
empty_route = new none "route is empty"

-- `String()` of the five statuses.
abbrev pub status_text : Status → String
status_text enabled = "enabled"
status_text disabled = "disabled"
status_text freezed = "freezed"
status_text deleted = "deleted"
status_text all = "all"

-- ToStatus
abbrev pub to_status : String → Result Status
to_status s =
    if s == "" || s == "enabled"
    then ok enabled
    else if s == "disabled"
    then ok disabled
    else if s == "freezed"
    then ok freezed
    else if s == "deleted"
    then ok deleted
    else if s == "all"
    then ok all
    else err invalid_status

-- `Result()` of a GET.
abbrev pub reply : Reading → Result String
reply (value v) = ok v
reply nil_reply = err redis_nil
reply (broken e) = err e

module _ {W : Type 0} (redis : Redis W) where
  -- SaveStatus
  unfoldable pub save_status : String → Status → Action W (Unit {0})
  save_status id status =
      fail_if (id == "") (wrap repo_create_entity empty_domain_id)
      >> (fail_if (status_text status == "unknown") (wrap repo_create_entity invalid_status)
          >> or_wrap repo_create_entity (redis.set id (status_text status)))

  -- SaveID
  unfoldable pub save_domain_id : String → String → Action W (Unit {0})
  save_domain_id route id =
      fail_if (route == "") (wrap repo_create_entity empty_route)
      >> (fail_if (id == "") (wrap repo_create_entity empty_domain_id)
          >> or_wrap repo_create_entity (redis.set route id))

  -- Status, given what is read.
  abbrev pub status_of : Reading → Result Status
  status_of reading = wrapping repo_missing (reply reading >>= to_status)

  -- Status
  unfoldable pub cached_status : String → W → Result Status
  cached_status id w = status_of (redis.get id w)

  -- ID
  unfoldable pub cached_domain_id : String → W → Result String
  cached_domain_id route w =
      if route == ""
      then err (wrap repo_missing empty_route)
      else wrapping repo_missing (reply (redis.get route w))

  -- RemoveStatus
  unfoldable pub remove_cached_status : String → Action W (Unit {0})
  remove_cached_status id =
      fail_if (id == "") (wrap repo_remove_entity empty_domain_id)
      >> or_wrap repo_remove_entity (redis.del (id ∷ []))

  -- RemoveID
  unfoldable pub remove_cached_id : String → Action W (Unit {0})
  remove_cached_id route =
      fail_if (route == "") (wrap repo_remove_entity empty_route)
      >> or_wrap repo_remove_entity (redis.del (route ∷ []))

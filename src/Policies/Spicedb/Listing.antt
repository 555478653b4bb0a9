-- ===== src/Policies/Spicedb/Listing.antt =====
-- Listing and counting objects, subjects and permissions in pkg/policies/spicedb/service.go.
use text.Mathlib.Text.{◌==◌}
use mathlib.Core.Option
use supermq.Common.{ℕ, String, Option, List, [], ◌∷◌, map, if◌then◌else◌}
use supermq.Errors.{wrap, Result, ok, err, wrapping, ◌>>=◌}
use supermq.Service.{view_entity, malformed_entity}
use supermq.Policies.{Policy}
use supermq.Policies.Spicedb.{or_handled, convert_grpc_status_to_error}
use supermq.Policies.Spicedb.Data.{
  Check, has_permission, Pair, failed, checked, incomplete, SpiceDb,
}
use supermq.Policies.Spicedb.Preconditions.{check_of}
use supermq.Policies.Spicedb.Lookups.{
  PolicyPage, Counted, retrieve_failed, retrieve_all_limit, or_default, objects_page, subjects_page,
  count_from, retrieve_objects, retrieve_subjects, retrieve_all_objects, retrieve_all_subjects,
}

-- The first permissions of retrievePermissions, and the error of a pair that has one.
unfoldable pub granted : List Pair → Result (List String)
unfolding convert_grpc_status_to_error
granted [] = ok []
granted (failed code msg ∷ ps) = err (wrap retrieve_failed (convert_grpc_status_to_error code msg))
granted (checked name has_permission ∷ ps) = granted ps >>= λ names. ok (name ∷ names)
granted (checked _ _ ∷ ps) = granted ps
granted (incomplete ∷ ps) = granted ps

abbrev pub client_permissions : List String
client_permissions = "admin" ∷ "delete" ∷ "edit" ∷ "view" ∷ "share" ∷ "publish" ∷ "subscribe" ∷ []

abbrev pub group_permissions : List String
group_permissions = "admin" ∷ "delete" ∷ "edit" ∷ "view" ∷ "membership" ∷ "share" ∷ []

abbrev pub domain_permissions : List String
domain_permissions = "admin" ∷ "edit" ∷ "view" ∷ "membership" ∷ "share" ∷ []

abbrev pub platform_permissions : List String
platform_permissions = "admin" ∷ "membership" ∷ []

-- The permissions that ListPermissions asks for.
abbrev pub permissions_filter : Policy → List String → Result (List String)
permissions_filter pr [] =
    if pr.object_type == "client"
    then ok client_permissions
    else if pr.object_type == "group"
    then ok group_permissions
    else if pr.object_type == "platform"
    then ok platform_permissions
    else if pr.object_type == "domain"
    then ok domain_permissions
    else err malformed_entity
permissions_filter pr (p ∷ ps) = ok (p ∷ ps)

abbrev pub permission_check : Policy → String → Check
permission_check pr name = record (check_of pr) { permission = name }

module _ {W : Type 0} (db : SpiceDb W) where
  -- ListObjects
  unfoldable pub list_objects : Policy → String → ℕ → W → Result PolicyPage
  unfolding retrieve_objects
  list_objects pr token limit w =
      wrapping view_entity (retrieve_objects db pr token (or_default limit) w) >>= λ page.
      ok (objects_page page)

  -- ListSubjects
  unfoldable pub list_subjects : Policy → String → ℕ → W → Result PolicyPage
  unfolding retrieve_subjects
  list_subjects pr token limit w =
      wrapping view_entity (retrieve_subjects db pr token (or_default limit) w) >>= λ page.
      ok (subjects_page page)

  -- ListAllObjects
  unfoldable pub list_all_objects : Policy → W → Result PolicyPage
  unfolding retrieve_all_objects
  list_all_objects pr w = wrapping view_entity (retrieve_all_objects db pr w) >>= λ policies.
      ok (objects_page (record { policies = policies; token = "" }))

  -- ListAllSubjects
  unfoldable pub list_all_subjects : ℕ → Policy → W → Option (Result PolicyPage)
  unfolding retrieve_all_subjects
  list_all_subjects fuel pr w =
      Option.map
        (λ r. wrapping view_entity r >>= λ policies.
          ok (subjects_page (record { policies = policies; token = "" })))
        (retrieve_all_subjects db fuel pr w)

  -- CountObjects
  unfoldable pub count_objects : ℕ → Policy → W → Option Counted
  unfolding count_from
  count_objects fuel pr w =
      count_from fuel (λ token. retrieve_objects db pr token retrieve_all_limit w) 0 ""

  -- CountSubjects
  unfoldable pub count_subjects : ℕ → Policy → W → Option Counted
  unfolding count_from
  count_subjects fuel pr w =
      count_from fuel (λ token. retrieve_subjects db pr token retrieve_all_limit w) 0 ""

  -- retrievePermissions
  unfoldable pub retrieve_permissions : Policy → List String → W → Result (List String)
  unfolding granted
  retrieve_permissions pr names w =
      or_handled retrieve_failed (db.check_bulk_permissions (map (permission_check pr) names) w)
      >>= granted

  -- ListPermissions
  unfoldable pub list_permissions : Policy → List String → W → Result (List String)
  unfolding retrieve_permissions
  list_permissions pr names w = permissions_filter pr names >>= λ asked.
      wrapping view_entity (retrieve_permissions pr asked w)

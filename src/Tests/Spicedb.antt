-- ===== src/Tests/Spicedb.antt =====
-- The theorems on pkg/policies/spicedb/service.go applied to a SpiceDB with room for one
-- relationship.
use supermq.Common.{arith, ◌≡◌, refl, none, some, List, [], ◌∷◌, length}
use supermq.Errors.{nil, ok}
use supermq.Policies.{Policy, no_policy}
use supermq.Policies.Implements.{Implements}
use supermq.Policies.Spicedb.Preconditions.{
  preconditions_if, check_policy, add_policy_pre_condition,
}
use supermq.Policies.Spicedb.Validation.{policy_validation, collect}
use supermq.Policies.Spicedb.Writes.{add_policies, delete_policies, delete_policy_filter}
use supermq.Policies.Spicedb.Refines.{spicedb-Implements}
use supermq.Policies.Spicedb.Guards.{ClientOfDomain, add_policies-ClientOfDomain}
use supermq.Policies.Spicedb.Lookups.{
  retrieve_subjects, page_of, last_token, subjects_page, to_uint64,
}
use supermq.Policies.Spicedb.Listing.{list_all_subjects, count_subjects}
use supermq.Policies.Spicedb.Paging.{AllPages, last, concat, count_subjects-list_all_subjects}
use supermq.Tests.SpicedbWorld.{Place, held, one_place}

spicedb_example :
    Implements held
      (add_policies one_place)
      (delete_policies one_place)
      (delete_policy_filter one_place)
spicedb_example = spicedb-Implements one_place

abbrev new_client : Policy
new_client = record no_policy {
  domain = "d1";
  subject = "u1";
  subject_type = "user";
  relation = "administrator";
  object = "k1";
  object_type = "client";
  object_kind = "new_client";
}

abbrev nowhere : Place
nowhere = none

adds_client : (add_policies one_place (new_client ∷ []) nowhere).0 ≡ ok tt
unfolding add_policies collect policy_validation add_policy_pre_condition preconditions_if
    check_policy
adds_client = refl

add_policies_example : ClientOfDomain one_place nowhere new_client
add_policies_example =
    add_policies-ClientOfDomain one_place [] [] new_client nowhere adds_client refl refl refl refl

abbrev answers : List (List Policy)
answers = (record no_policy { subject = "u1" } ∷ []) ∷ []

one_page : AllPages one_place new_client nowhere answers
unfolding retrieve_subjects page_of last_token
one_page = last refl

count_subjects_example :
    (list_all_subjects one_place 3 new_client nowhere
      ≡ some (ok (subjects_page (record { policies = concat answers; token = "" }))))
    × (count_subjects one_place 3 new_client nowhere
        ≡ some (record { count = to_uint64 (length (concat answers)); error = nil }))
count_subjects_example =
    count_subjects-list_all_subjects one_place new_client nowhere answers 3 one_page tt
      (omega arith)

-- ===== src/Policies/Spicedb/Writes.antt =====
-- The writes of pkg/policies/spicedb/service.go.
use text.Mathlib.Text.{◌==◌}
use supermq.Common.{
  String, Bool, true, false, none, some, Option, List, [], ◌∷◌, map, if◌then◌else◌,
}
use supermq.Errors.{Err, new, wrap}
use supermq.Service.{Action, ◌>>=◌, ◌>>◌, fail_if, read, or_wrap}
use supermq.Policies.{Policy, to_relationship}
use supermq.Policies.Spicedb.{Reply, malformed_request, or_handled}
use supermq.Policies.Spicedb.Data.{Operation, create, delete, Update, Filter, SpiceDb}
use supermq.Policies.Spicedb.Preconditions.{add_policy_pre_condition}
use supermq.Policies.Spicedb.Validation.{invalid_policy, policy_validation, collect, validate_all}

abbrev pub add_failed : Err
add_failed = new none "failed to add policies"

abbrev pub remove_failed : Err
remove_failed = new none "failed to remove the policies"

abbrev pub no_policies : Err
no_policies = wrap malformed_request (new none "no policies provided")

abbrev pub update_of : Operation → Policy → Update
update_of op pr = record { operation = op; relationship = to_relationship pr }

-- The filter of DeletePolicyFilter.
abbrev pub optional : String → Option String
optional s = if s == "" then none else some s

abbrev pub to_filter : Policy → Filter
to_filter pr = record {
  resource_type = pr.object_type;
  resource_id = pr.object;
  resource_id_prefix = pr.object_prefix;
  relation = pr.relation;
  subject =
      if pr.subject_type == ""
      then none
      else some (record {
        subject_type = pr.subject_type;
        subject_id = pr.subject;
        relation = optional pr.subject_relation;
      });
}

abbrev pub is_none : {A : Type 0} → List A → Bool
is_none [] = true
is_none (_ ∷ _) = false

module _ {W : Type 0} (db : SpiceDb W) where
  abbrev pub sending : {A : Type 0} → Err → (W → Reply A × W) → Action W A
  sending e call w = let (r, w') = call w in (or_handled e r, w')

  -- AddPolicies
  unfoldable pub add_policies : List Policy → Action W (Unit {0})
  unfolding collect
  add_policies prs = read (collect db prs) >>= λ preconds.
      fail_if (is_none prs) no_policies
      >> sending add_failed (db.write (map (update_of create) prs) preconds)

  -- AddPolicy
  unfoldable pub add_policy : Policy → Action W (Unit {0})
  unfolding policy_validation add_policy_pre_condition
  add_policy pr =
      or_wrap invalid_policy (read (λ _. policy_validation pr))
      >> (read (add_policy_pre_condition db pr) >>= λ preconds.
          sending add_failed (db.write (update_of create pr ∷ []) preconds))

  -- DeletePolicies
  unfoldable pub delete_policies : List Policy → Action W (Unit {0})
  unfolding validate_all
  delete_policies prs =
      read (λ _. validate_all prs)
      >> (fail_if (is_none prs) no_policies
          >> sending remove_failed (db.write (map (update_of delete) prs) []))

  -- DeletePolicyFilter
  unfoldable pub delete_policy_filter : Policy → Action W (Unit {0})
  delete_policy_filter pr = sending remove_failed (db.delete_relationships (to_filter pr))

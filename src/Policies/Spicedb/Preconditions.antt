-- ===== src/Policies/Spicedb/Preconditions.antt =====
-- What must hold before a policy is added (addPolicyPreCondition in pkg/policies/spicedb/service.go).
use text.Mathlib.Text.{◌==◌}
use supermq.Common.{
  String, Bool, true, false, ◌&&◌, ◌||◌, none, some, List, [], ◌∷◌, ◌++◌, if◌then◌else◌, inl, inr,
}
use supermq.Errors.{Err, foreign, new, wrap, Result, ok, err}
use supermq.Policies.{Policy, no_policy}
use supermq.Policies.Spicedb.{Reply, authorization_error, handle_spicedb_error}
use supermq.Policies.Spicedb.Data.{
  Filter, must_match, must_not_match, Precondition, Check, Permissionship, has_permission, named,
  unnamed, SpiceDb,
}

-- A filter for the relationships of one resource to the subjects of a type; an empty relation or
-- subject is any.
abbrev pub between : String → String → String → String → String → Filter
between resource_type resource_id relation subject_type subject_id = record {
  resource_type = resource_type;
  resource_id = resource_id;
  resource_id_prefix = "";
  relation = relation;
  subject = some (record { subject_type = subject_type; subject_id = subject_id; relation = none });
}

abbrev pub must : Filter → Precondition
must f = record { operation = must_match; filter = f }

abbrev pub must_not : Filter → Precondition
must_not f = record { operation = must_not_match; filter = f }

-- The request of checkPolicy.
abbrev pub check_of : Policy → Check
check_of pr = record {
  resource_type = pr.object_type;
  resource = pr.object;
  permission = pr.permission;
  subject_type = pr.subject_type;
  subject = pr.subject;
  subject_relation = pr.subject_relation;
}

-- The end of checkPolicy.
abbrev pub check_answer : Reply Permissionship → Result (Unit {0})
check_answer (inl e) = err (handle_spicedb_error e)
check_answer (inr has_permission) = ok tt
check_answer (inr (named reason)) = err (wrap authorization_error (new none reason))
check_answer (inr unnamed) = err authorization_error

abbrev pub is_ok : {A : Type 0} → Result A → Bool
is_ok (ok _) = true
is_ok (err _) = false

-- The policy that the user administers the platform.
abbrev pub super_admin : Policy → Policy
super_admin pr = record no_policy {
  subject = pr.subject;
  subject_type = pr.subject_type;
  permission = "admin";
  object = "supermq";
  object_type = "platform";
}

-- The new object has no domain yet; one that is not new is in the policy's domain.
abbrev pub in_domain : Bool → String → Policy → Precondition
in_domain true object_type pr = must_not (between object_type pr.object "domain" "domain" "")
in_domain false object_type pr = must (between object_type pr.object "domain" "domain" pr.domain)

-- What userGroupPreConditions and userClientPreConditions share, which differ in the type of the object and in
-- the kinds of new objects: the user has no relation with the object, and one with the domain
-- unless she administers the platform.
abbrev pub user_object_preconditions : Bool → Bool → String → Policy → List Precondition
user_object_preconditions is_super_admin is_new object_type pr =
    must_not (between object_type pr.object "" "user" pr.subject)
    ∷ ((if is_super_admin then [] else must (between "domain" pr.domain "" "user" pr.subject) ∷ [])
        ++ in_domain is_new object_type pr ∷ [])

abbrev pub is_new_group : Policy → Bool
is_new_group pr = pr.object_kind == "new_group" || pr.object_kind == "new_channel"

-- userGroupPreConditions and userClientPreConditions
abbrev pub user_group_preconditions : Bool → Policy → List Precondition
user_group_preconditions is_super_admin pr =
    user_object_preconditions is_super_admin (is_new_group pr) "group" pr

abbrev pub user_client_preconditions : Bool → Policy → List Precondition
user_client_preconditions is_super_admin pr =
    user_object_preconditions is_super_admin (pr.object_kind == "new_client") "client" pr

-- groupPreConditions
abbrev pub group_preconditions : Policy → List Precondition
group_preconditions pr =
    must (between "group" pr.subject "domain" "domain" pr.domain)
    ∷ ((if pr.object_kind == "channels"
          then []
          else must_not (between "group" pr.object "parent_group" "group" "") ∷ [])
        ++ in_domain (pr.object_kind == "new_group") "group" pr ∷ [])

abbrev pub already_in_domain : Err
already_in_domain = foreign "use already exists in domain"

-- userDomainPreConditions
abbrev pub user_domain_preconditions : Bool → Policy → Result (List Precondition)
user_domain_preconditions true pr = err already_in_domain
user_domain_preconditions false pr =
    ok (must_not (between "domain" pr.object "" "user" pr.subject) ∷ [])

abbrev pub subject_object : Policy → String → String → Bool
subject_object pr subject_type object_type =
    pr.subject_type == subject_type && pr.object_type == object_type

-- The case of a domain and a new client or group in it.
abbrev pub is_domain_object : Policy → Bool
is_domain_object pr =
    pr.subject_type == "domain"
    && (pr.relation == "domain" && (pr.object_type == "client" || pr.object_type == "group"))

-- addPolicyPreCondition, given whether the user administers the platform.
unfoldable pub preconditions_if : Bool → Policy → Result (List Precondition)
preconditions_if is_super_admin pr =
    if subject_object pr "user" "group"
    then ok (user_group_preconditions is_super_admin pr)
    else if subject_object pr "user" "client"
    then ok (user_client_preconditions is_super_admin pr)
    else if subject_object pr "group" "group"
    then ok (group_preconditions pr)
    else if subject_object pr "user" "domain"
    then user_domain_preconditions is_super_admin pr
    else if is_domain_object pr
    then ok (must_not (between pr.object_type pr.object "domain" "domain" "") ∷ [])
    else ok []

module _ {W : Type 0} (db : SpiceDb W) where
  -- checkPolicy
  unfoldable pub check_policy : Policy → W → Result (Unit {0})
  check_policy pr w = check_answer (db.check_permission (check_of pr) w)

  -- addPolicyPreCondition; the check of the administrator changes nothing.
  unfoldable pub add_policy_pre_condition : Policy → W → Result (List Precondition)
  unfolding preconditions_if check_policy
  add_policy_pre_condition pr w = preconditions_if (is_ok (check_policy (super_admin pr) w)) pr

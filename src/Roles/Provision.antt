-- ===== src/Roles/Provision.antt =====
-- AddNewEntitiesRoles and RemoveEntitiesRoles of pkg/roles/provisionmanage.go: the roles of new
-- entities, and the policies of removed ones.
use Prim.Native.String.{◌++◌ as join}
use supermq.Common.{ℕ, String, none, some, Option, List, [], ◌∷◌, ◌++◌, if◌then◌else◌, ltb, length}
use supermq.Errors.{Err, new, foreign, ok}
use supermq.Service.{
  Action, ◌>>=◌, ◌>>◌, pure, fail, read, or_wrap, create_entity, delete_policies_error,
  malformed_entity,
}
use supermq.Policies.{Policy}
use supermq.Roles.Data.{RoleProvision, RoleWorld, Provisioner, EntityActionRole, EntityMemberRole}
use supermq.Roles.Policy.{
  validate_actions, built_in_role_actions, action_policies, member_policies, provisioned_policies,
}
use supermq.Roles.Manage.{is_empty, adding_policies}

abbrev pub remove_optional_error : Err
remove_optional_error = new none "failed to delete the additional requested policies"

abbrev pub remove_optional_filter_error : Err
remove_optional_filter_error = new none "failed to filter delete the additional requested policies"

-- What the two loops of AddNewEntitiesRoles collect.
pub record Plan : Type 0 where
  pub provisions : List RoleProvision
  pub policies : List Policy

abbrev pub empty_plan : Plan
empty_plan = record { provisions = []; policies = [] }

abbrev pub join_plans : Plan → Plan → Plan
join_plans a b = record {
  provisions = a.provisions ++ b.provisions;
  policies = a.policies ++ b.policies;
}

-- The plan of one role of one entity.
abbrev pub role_plan :
    Provisioner → String → String → String → String → String → List String → List String → ℕ → Plan
role_plan p domain_id user_id entity_id id name acts members time = record {
  provisions =
      record {
        role = record {
          id = id;
          name = name;
          entity_id = entity_id;
          created_by = user_id;
          created_at = time;
          updated_by = "";
          updated_at = 0;
        };
        optional_actions = acts;
        optional_members = members;
      }
      ∷ [];
  policies =
      action_policies p.entity_type id entity_id acts ++ member_policies domain_id id members;
}

module _ {W : Type 0} (world : RoleWorld W) (p : Provisioner) where
  open world use {policy, repo, new_sid, now}

  abbrev pub or_missing_role : String → Option (List String) → Action W (List String)
  or_missing_role name (some acts) = pure acts
  or_missing_role name none =
      fail (foreign (join "default role " (join name " not found in in-built roles")))

  -- The body of the inner loop once the role has an ID, and once its actions are found.
  abbrev pub plan_named :
      String → String → String → String → List String → List String → String → Action W Plan
  plan_named domain_id user_id entity_id name members acts sid =
      or_wrap malformed_entity (read (λ _. validate_actions p.actions acts)) >> λ w. (
        ok (
            role_plan p domain_id user_id entity_id (join p.entity_type (join "_" sid)) name acts
              members (now w)),
        w,
      )

  abbrev pub plan_granted :
      String → String → String → String → List String → List String → Action W Plan
  plan_granted domain_id user_id entity_id name members acts =
      or_wrap create_entity new_sid >>= plan_named domain_id user_id entity_id name members acts

  -- The body of the inner loop.
  abbrev pub plan_role : String → String → String → String → List String → Action W Plan
  plan_role domain_id user_id entity_id name members =
      or_missing_role name (built_in_role_actions p.built_in_roles name)
      >>= plan_granted domain_id user_id entity_id name members

  -- The inner loop, over the built-in roles; a map's order is any.
  unfoldable pub plan_roles : String → String → String → List (String × List String) → Action W Plan
  unfolding validate_actions built_in_role_actions
  plan_roles domain_id user_id entity_id [] = pure empty_plan
  plan_roles domain_id user_id entity_id ((name, members) ∷ rest) = do
    first ← plan_role domain_id user_id entity_id name members
    others ← plan_roles domain_id user_id entity_id rest
    pure (join_plans first others)

  -- The outer loop, over the entities.
  unfoldable pub plan_entities :
      String → String → List String → List (String × List String) → Action W Plan
  unfolding plan_roles
  plan_entities domain_id user_id [] members = pure empty_plan
  plan_entities domain_id user_id (entity_id ∷ rest) members = do
    first ← plan_roles domain_id user_id entity_id members
    others ← plan_entities domain_id user_id rest members
    pure (join_plans first others)

  -- AddNewEntitiesRoles from the policies on.
  abbrev pub provision_all : List Policy → List RoleProvision → Action W (List RoleProvision)
  provision_all prs rps =
      if is_empty prs
      then or_wrap create_entity (repo.add_roles rps)
      else adding_policies world p create_entity prs (or_wrap create_entity (repo.add_roles rps))

  -- AddNewEntitiesRoles
  unfoldable pub add_new_entities_roles :
      String
      → String
      → List String
      → List Policy
      → List (String × List String)
      → Action W (List RoleProvision)
  unfolding plan_entities
  add_new_entities_roles domain_id user_id entity_ids optional members = do
    plan ← plan_entities domain_id user_id entity_ids members
    provision_all (plan.policies ++ optional) plan.provisions

  -- The loop over the filters of RemoveEntitiesRoles.
  unfoldable pub delete_filters : List Policy → Action W (Unit {0})
  delete_filters [] = pure tt
  delete_filters (f ∷ fs) =
      or_wrap remove_optional_filter_error (policy.delete_filter f) >> delete_filters fs

  -- The optional policies are deleted only if there are at least two.
  abbrev pub delete_optional : List Policy → Action W (Unit {0})
  delete_optional prs =
      if ltb 1 (length prs) then or_wrap remove_optional_error (policy.delete prs) else pure tt

  -- RemoveEntitiesRoles once it has the roles' actions and members.
  abbrev pub remove_found :
      String
      → List Policy
      → List Policy
      → List EntityActionRole × List EntityMemberRole
      → Action W (Unit {0})
  remove_found domain_id filters optional found =
      or_wrap delete_policies_error
        (policy.delete (provisioned_policies p domain_id found.0 found.1))
      >> (delete_optional optional >> delete_filters filters)

  -- RemoveEntitiesRoles
  unfoldable pub remove_entities_roles :
      String → List String → List Policy → List Policy → Action W (Unit {0})
  unfolding delete_filters
  remove_entities_roles domain_id entity_ids filters optional =
      read (repo.retrieve_actions_members entity_ids) >>= remove_found domain_id filters optional

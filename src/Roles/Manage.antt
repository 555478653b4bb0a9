-- ===== src/Roles/Manage.antt =====
-- The operations of RoleManager in pkg/roles/provisionmanage.go.
use Prim.Native.String.{◌++◌ as join}
use supermq.Common.{ℕ, String, Bool, true, false, none, List, [], ◌∷◌, ◌++◌, if◌then◌else◌}
use supermq.Errors.{Err, new, foreign, Result, ok, err}
use supermq.Service.{
  Action, ◌>>=◌, ◌>>◌, fail, fail_if, read, gets, or_wrap, undoing, create_entity, remove_entity,
  view_entity, update_entity, add_policies_error, delete_policies_error, malformed_entity,
}
use supermq.Policies.{Policy, no_policy}
use supermq.Roles.Data.{Role, RoleProvision, Session, RolePage, MembersPage, RoleWorld, Provisioner}
use supermq.Roles.Policy.{validate_actions, action_policies, member_policies}

abbrev pub rollback_roles_error : Err
rollback_roles_error = new none "failed to rollback roles"

abbrev pub is_empty : {A : Type 0} → List A → Bool
is_empty [] = true
is_empty (_ ∷ _) = false

-- `return rp[0], nil`, or the error that there is none.
abbrev pub first_provision : List RoleProvision → Result RoleProvision
first_provision [] = err create_entity
first_provision (rp ∷ _) = ok rp

-- The filters of RemoveRole and RoleRemoveAllActions, RoleRemoveAllMembers, and
-- RemoveMemberFromAllRoles.
abbrev pub role_filter : String → Policy
role_filter id = record no_policy { subject_type = "role"; subject = id }

abbrev pub members_filter : String → Policy
members_filter id = record no_policy { object_type = "role"; object = id; subject_type = "user" }

abbrev pub memberships_filter : String → Policy
memberships_filter entity_type = record no_policy {
  object_type = "role";
  object_prefix = join entity_type "_";
  subject_type = "user";
}

-- `ro.UpdatedAt = time.Now().UTC(); ro.UpdatedBy = session.UserID`
abbrev pub touched : Session → Role → ℕ → Role
touched session ro time = record ro { updated_at = time; updated_by = session.user_id }

module _ {W : Type 0} (world : RoleWorld W) (p : Provisioner) where
  open world use {policy, repo, new_sid, now}

  -- AddPolicies, and DeletePolicies if what follows fails.
  abbrev pub adding_policies : {A : Type 0} → Err → List Policy → Action W A → Action W A
  adding_policies e prs rest =
      or_wrap e (policy.add prs) >> undoing (policy.delete prs) rollback_roles_error rest

  abbrev pub touch : Session → Role → Action W Role
  touch session ro w = (ok (touched session ro (now w)), w)

  abbrev pub new_role : Session → String → String → String → Action W Role
  new_role session id name entity_id w = (
    ok (record {
      id = id;
      name = name;
      entity_id = entity_id;
      created_by = session.user_id;
      created_at = now w;
      updated_by = "";
      updated_at = 0;
    }),
    w,
  )

  -- The end of AddRole.
  abbrev pub save_role : List RoleProvision → Action W RoleProvision
  save_role rps =
      or_wrap create_entity (repo.add_roles rps) >>= λ added w. (first_provision added, w)

  -- AddRole from the policies on: none are added and none are taken back if there are none.
  abbrev pub provision : List Policy → List RoleProvision → Action W RoleProvision
  provision prs rps =
      if is_empty prs then save_role rps else adding_policies create_entity prs (save_role rps)

  -- AddRole once the actions are valid.
  abbrev pub provision_role :
      Session → String → String → List String → List String → String → Action W RoleProvision
  provision_role session entity_id role_name actions members id = do
    role ← new_role session id role_name entity_id
    provision
        (action_policies p.entity_type id entity_id actions
          ++ member_policies session.domain_id id members)
        (record { role = role; optional_actions = actions; optional_members = members } ∷ [])

  -- AddRole once it has an ID.
  abbrev pub add_named_role :
      Session → String → String → List String → List String → String → Action W RoleProvision
  add_named_role session entity_id role_name actions members sid =
      or_wrap malformed_entity (read (λ _. validate_actions p.actions actions))
      >> provision_role session entity_id role_name actions members
          (join p.entity_type (join "_" sid))

  -- AddRole
  unfoldable pub add_role :
      Session → String → String → List String → List String → Action W RoleProvision
  unfolding validate_actions
  add_role session entity_id role_name actions members =
      or_wrap create_entity new_sid >>= add_named_role session entity_id role_name actions members

  abbrev pub entity_role : Err → String → String → Action W Role
  entity_role e entity_id role_id = or_wrap e (read (repo.retrieve_entity_role entity_id role_id))

  -- RemoveRole once it has the role.
  abbrev pub drop_role : Role → Action W (Unit {0})
  drop_role ro =
      or_wrap remove_entity (policy.delete_filter (role_filter ro.id))
      >> or_wrap remove_entity (repo.remove_roles (ro.id ∷ []))

  -- RemoveRole
  unfoldable pub remove_role : String → String → Action W (Unit {0})
  remove_role entity_id role_id = entity_role remove_entity entity_id role_id >>= drop_role

  -- UpdateRoleName
  unfoldable pub update_role_name : Session → String → String → String → Action W Role
  update_role_name session entity_id role_id new_name = do
    ro ← entity_role update_entity entity_id role_id
    time ← gets now
    or_wrap update_entity (
        repo.update_role (record {
          id = ro.id;
          name = new_name;
          entity_id = entity_id;
          created_by = "";
          created_at = 0;
          updated_by = session.user_id;
          updated_at = time;
        }))

  -- RetrieveRole
  unfoldable pub retrieve_role : String → String → Action W Role
  retrieve_role entity_id role_id = entity_role view_entity entity_id role_id

  -- RetrieveAllRoles
  unfoldable pub retrieve_all_roles : String → ℕ → ℕ → Action W RolePage
  retrieve_all_roles entity_id limit offset =
      or_wrap view_entity (read (repo.retrieve_all_roles entity_id limit offset))

  -- The end of RoleAddActions.
  abbrev pub save_actions : Session → List String → Role → Action W (List String)
  save_actions session actions ro =
      touch session ro >>= λ ro'. or_wrap create_entity (repo.add_actions ro' actions)

  -- RoleAddActions once it has the role.
  abbrev pub grant_actions : Session → String → List String → Role → Action W (List String)
  grant_actions session entity_id actions ro =
      fail_if (is_empty actions) malformed_entity
      >> or_wrap malformed_entity (read (λ _. validate_actions p.actions actions))
      >> adding_policies add_policies_error (action_policies p.entity_type ro.id entity_id actions)
          (save_actions session actions ro)

  -- RoleAddActions
  unfoldable pub role_add_actions : Session → String → String → List String → Action W (List String)
  unfolding validate_actions
  role_add_actions session entity_id role_id actions =
      entity_role update_entity entity_id role_id >>= grant_actions session entity_id actions

  -- RoleListActions
  unfoldable pub role_list_actions : String → String → Action W (List String)
  role_list_actions entity_id role_id = do
    ro ← entity_role view_entity entity_id role_id
    or_wrap view_entity (read (repo.list_actions ro.id))

  -- RoleCheckActionsExists
  unfoldable pub role_check_actions_exists : String → String → List String → Action W Bool
  role_check_actions_exists entity_id role_id actions = do
    ro ← entity_role view_entity entity_id role_id
    or_wrap view_entity (read (repo.check_actions_exists ro.id actions))

  -- The end of RoleRemoveActions.
  abbrev pub save_without_actions : Session → List String → Role → Action W (Unit {0})
  save_without_actions session actions ro =
      touch session ro >>= λ ro'. or_wrap remove_entity (repo.remove_actions ro' actions)

  -- RoleRemoveActions once it has the role.
  abbrev pub drop_actions : Session → String → List String → Role → Action W (Unit {0})
  drop_actions session entity_id actions ro =
      fail_if (is_empty actions) malformed_entity
      >> or_wrap delete_policies_error
          (policy.delete (action_policies p.entity_type ro.id entity_id actions))
      >> save_without_actions session actions ro

  -- RoleRemoveActions
  unfoldable pub role_remove_actions : Session → String → String → List String → Action W (Unit {0})
  role_remove_actions session entity_id role_id actions =
      entity_role remove_entity entity_id role_id >>= drop_actions session entity_id actions

  -- RoleRemoveAllActions once it has the role.
  abbrev pub drop_all_actions : Session → Role → Action W (Unit {0})
  drop_all_actions session ro =
      or_wrap delete_policies_error (policy.delete_filter (role_filter ro.id))
      >> (touch session ro >>= λ ro'. or_wrap remove_entity (repo.remove_all_actions ro'))

  -- RoleRemoveAllActions
  unfoldable pub role_remove_all_actions : Session → String → String → Action W (Unit {0})
  role_remove_all_actions session entity_id role_id =
      entity_role remove_entity entity_id role_id >>= drop_all_actions session

  -- The end of RoleAddMembers.
  abbrev pub save_members : Session → List String → Role → Action W (List String)
  save_members session members ro =
      touch session ro >>= λ ro'. or_wrap create_entity (repo.add_members ro' members)

  -- RoleAddMembers once it has the role.
  abbrev pub grant_members : Session → List String → Role → Action W (List String)
  grant_members session members ro =
      fail_if (is_empty members) malformed_entity
      >> adding_policies add_policies_error (member_policies session.domain_id ro.id members)
          (save_members session members ro)

  -- RoleAddMembers
  unfoldable pub role_add_members : Session → String → String → List String → Action W (List String)
  role_add_members session entity_id role_id members =
      entity_role update_entity entity_id role_id >>= grant_members session members

  -- RoleListMembers
  unfoldable pub role_list_members : String → String → ℕ → ℕ → Action W MembersPage
  role_list_members entity_id role_id limit offset = do
    ro ← entity_role view_entity entity_id role_id
    or_wrap view_entity (read (repo.list_members ro.id limit offset))

  -- RoleCheckMembersExists
  unfoldable pub role_check_members_exists : String → String → List String → Action W Bool
  role_check_members_exists entity_id role_id members = do
    ro ← entity_role view_entity entity_id role_id
    or_wrap view_entity (read (repo.check_members_exists ro.id members))

  -- The end of RoleRemoveMembers.
  abbrev pub save_without_members : Session → List String → Role → Action W (Unit {0})
  save_without_members session members ro =
      touch session ro >>= λ ro'. or_wrap remove_entity (repo.remove_members ro' members)

  -- RoleRemoveMembers once it has the role.
  abbrev pub drop_members : Session → List String → Role → Action W (Unit {0})
  drop_members session members ro =
      fail_if (is_empty members) malformed_entity
      >> or_wrap delete_policies_error
          (policy.delete (member_policies session.domain_id ro.id members))
      >> save_without_members session members ro

  -- RoleRemoveMembers
  unfoldable pub role_remove_members : Session → String → String → List String → Action W (Unit {0})
  role_remove_members session entity_id role_id members =
      entity_role remove_entity entity_id role_id >>= drop_members session members

  -- RoleRemoveAllMembers once it has the role.
  abbrev pub drop_all_members : Session → Role → Action W (Unit {0})
  drop_all_members session ro =
      or_wrap delete_policies_error (policy.delete_filter (members_filter ro.id))
      >> (touch session ro >>= λ ro'. or_wrap remove_entity (repo.remove_all_members ro'))

  -- RoleRemoveAllMembers
  unfoldable pub role_remove_all_members : Session → String → String → Action W (Unit {0})
  role_remove_all_members session entity_id role_id =
      entity_role remove_entity entity_id role_id >>= drop_all_members session

  -- RemoveEntityMembers
  unfoldable pub remove_entity_members : String → List String → Action W (Unit {0})
  remove_entity_members entity_id members = repo.remove_entity_members entity_id members

  -- RemoveMemberFromAllRoles from the policies on.
  abbrev pub drop_all_memberships : Action W (Unit {0})
  drop_all_memberships =
      or_wrap delete_policies_error (policy.delete_filter (memberships_filter p.entity_type))
      >> fail (foreign "not implemented")

  -- RemoveMemberFromAllRoles, which ends in an error whatever happens.
  unfoldable pub remove_member_from_all_roles : String → Action W (Unit {0})
  remove_member_from_all_roles member =
      or_wrap remove_entity (repo.remove_member_from_all_roles member) >> drop_all_memberships

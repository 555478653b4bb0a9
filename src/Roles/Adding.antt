-- ===== src/Roles/Adding.antt =====
-- The operations of pkg/roles/provisionmanage.go that add policies are all or nothing.
use supermq.Common.{refl, inl, String, List, [], ◌∷◌}
use supermq.Errors.{Result, ok, err}
use supermq.Service.{
  ◌>>=◌, ◌>>◌, read, or_wrap, update_entity, malformed_entity, add_policies_error,
}
use supermq.Policies.{Policy}
use supermq.Policies.Atomic.{AllOrNothing, adding-AllOrNothing}
use supermq.Roles.Data.{Role, Session, RoleWorld, Provisioner}
use supermq.Roles.Policy.{validate_actions, action_policies, member_policies}
use supermq.Roles.Manage.{
  rollback_roles_error, adding_policies, touched, save_actions, save_members, grant_actions,
  grant_members, role_add_actions, role_add_members,
}

module _ {W : Type 0} (world : RoleWorld W) (p : Provisioner) (session : Session) where
  open world use {policy, repo}

  -- The policies that RoleAddMembers is to add, none if there is no such role.
  abbrev pub members_wanted : List String → Result Role → List Policy
  members_wanted members (ok ro) = member_policies session.domain_id ro.id members
  members_wanted members (err _) = []

  abbrev pub actions_wanted : String → List String → Result Role → List Policy
  actions_wanted entity_id actions (ok ro) = action_policies p.entity_type ro.id entity_id actions
  actions_wanted entity_id actions (err _) = []

  pub found_members :
      (members : List String) (found : Result Role) (w : W)
      → AllOrNothing policy rollback_roles_error
          (members_wanted members found)
          w
          ((or_wrap update_entity (read (λ _. found)) >>= grant_members world p session members) w)
  found_members members (err _) w = inl (λ r. refl)
  found_members [] (ok ro) w = inl (λ r. refl)
  found_members (m ∷ ms) (ok ro) w =
      adding-AllOrNothing policy (member_policies session.domain_id ro.id (m ∷ ms))
        add_policies_error rollback_roles_error (save_members world p session (m ∷ ms) ro) w
        (λ w1 r. world.add_members_keeps (touched session ro (world.now w1)) (m ∷ ms) w1 r)

  -- RoleAddMembers adds all of the members' policies or, with an error, none of them, unless the
  -- error says that they could not be taken back.
  pub role_add_members-AllOrNothing :
      (entity_id role_id : String) (members : List String) (w : W)
      → AllOrNothing policy rollback_roles_error
          (members_wanted members (repo.retrieve_entity_role entity_id role_id w))
          w
          (role_add_members world p session entity_id role_id members w)
  unfolding role_add_members
  role_add_members-AllOrNothing entity_id role_id members w =
      found_members members (repo.retrieve_entity_role entity_id role_id w) w

  validated_actions :
      (entity_id : String) (actions : List String) (ro : Role) (valid : Result (Unit {0})) (w : W)
      → AllOrNothing policy rollback_roles_error (actions_wanted entity_id actions (ok ro)) w (
          (or_wrap malformed_entity (read (λ _. valid))
              >> adding_policies world p add_policies_error
                  (action_policies p.entity_type ro.id entity_id actions)
                  (save_actions world p session actions ro))
            w)
  validated_actions entity_id actions ro (err _) w = inl (λ r. refl)
  validated_actions entity_id actions ro (ok _) w =
      adding-AllOrNothing policy (action_policies p.entity_type ro.id entity_id actions)
        add_policies_error rollback_roles_error (save_actions world p session actions ro) w
        (λ w1 r. world.add_actions_keeps (touched session ro (world.now w1)) actions w1 r)

  found_actions :
      (entity_id : String) (actions : List String) (found : Result Role) (w : W)
      → AllOrNothing policy rollback_roles_error (actions_wanted entity_id actions found) w (
          (or_wrap update_entity (read (λ _. found))
              >>= grant_actions world p session entity_id actions)
            w)
  found_actions entity_id actions (err _) w = inl (λ r. refl)
  found_actions entity_id [] (ok ro) w = inl (λ r. refl)
  found_actions entity_id (a ∷ acts) (ok ro) w =
      validated_actions entity_id (a ∷ acts) ro (validate_actions p.actions (a ∷ acts)) w

  -- RoleAddActions adds all of the actions' policies or, with an error, none of them, unless the
  -- error says that they could not be taken back.
  pub role_add_actions-AllOrNothing :
      (entity_id role_id : String) (actions : List String) (w : W)
      → AllOrNothing policy rollback_roles_error
          (actions_wanted entity_id actions (repo.retrieve_entity_role entity_id role_id w))
          w
          (role_add_actions world p session entity_id role_id actions w)
  unfolding role_add_actions
  role_add_actions-AllOrNothing entity_id role_id actions w =
      found_actions entity_id actions (repo.retrieve_entity_role entity_id role_id w) w

-- ===== src/Roles/Provisioning.antt =====
-- AddRole and AddNewEntitiesRoles of pkg/roles/provisionmanage.go are all or nothing.
use Prim.Native.String.{◌++◌ as join}
use supermq.Common.{Option, none, some, refl, inl, String, List, [], ◌∷◌, ◌++◌}
use supermq.Errors.{Result, ok, err}
use supermq.Service.{Action, ◌>>=◌, ◌>>◌, pure, read, or_wrap, create_entity, malformed_entity}
use supermq.Service.Laws.{>>=-Keeps}
use supermq.Policies.{Policy}
use supermq.Policies.Atomic.{
  Unchanged, AllOrNothing, nothing-AllOrNothing, adding-AllOrNothing, from-Unchanged,
}
use supermq.Roles.Data.{RoleProvision, Session, RoleWorld, Provisioner}
use supermq.Roles.Policy.{validate_actions, built_in_role_actions, action_policies, member_policies}
use supermq.Roles.Manage.{
  rollback_roles_error, first_provision, save_role, provision, provision_role, add_named_role,
  add_role,
}
use supermq.Roles.Provision.{
  Plan, plan_role, plan_granted, plan_named, plan_roles, plan_entities, or_missing_role, role_plan,
  join_plans, provision_all, add_new_entities_roles,
}

module _ {W : Type 0} (world : RoleWorld W) (p : Provisioner) where
  open world use {policy, repo, new_sid, now}

  abbrev Same : {A : Type 0} → Action W A → Type 0
  Same m = (w : W) → Unchanged policy w (m w).1

  saved : (rps : List RoleProvision) → Same (save_role world p rps)
  saved rps w r =
      >>=-Keeps (λ z. policy.holds z r) (or_wrap create_entity (repo.add_roles rps))
        (λ added z. (first_provision added, z)) (λ z. world.add_roles_keeps rps z r)
        (λ added z. refl) w

  provision-AllOrNothing :
      (prs : List Policy) (rps : List RoleProvision) (w : W)
      → AllOrNothing policy rollback_roles_error prs w (provision world p prs rps w)
  provision-AllOrNothing [] rps w =
      nothing-AllOrNothing policy rollback_roles_error w (save_role world p rps w) (saved rps w)
  provision-AllOrNothing (pr ∷ prs) rps w =
      adding-AllOrNothing policy (pr ∷ prs) create_entity rollback_roles_error
        (save_role world p rps) w (saved rps)

  -- The policies that AddRole is to add, for the ID that it gets for the role.
  abbrev pub role_wanted :
      Session → String → List String → List String → Result String → List Policy
  role_wanted session entity_id actions members (err _) = []
  role_wanted session entity_id actions members (ok sid) =
      action_policies p.entity_type (join p.entity_type (join "_" sid)) entity_id actions
      ++ member_policies session.domain_id (join p.entity_type (join "_" sid)) members

  validated :
      (session : Session) (entity_id role_name : String) (actions members : List String)
      (valid : Result (Unit {0})) (w : W) (sid : String)
      → AllOrNothing policy rollback_roles_error
          (role_wanted session entity_id actions members (ok sid))
          w
          ((or_wrap malformed_entity (read (λ _. valid))
              >> provision_role world p session entity_id role_name actions members
                  (join p.entity_type (join "_" sid)))
            w)
  validated session entity_id role_name actions members (err _) w sid = inl (λ r. refl)
  validated session entity_id role_name actions members (ok _) w sid =
      provision-AllOrNothing (role_wanted session entity_id actions members (ok sid)) _ w

  named :
      (session : Session) (entity_id role_name : String) (actions members : List String) (w : W)
      (sid : Result String × W)
      → Unchanged policy w sid.1
      → AllOrNothing policy rollback_roles_error
          (role_wanted session entity_id actions members sid.0)
          w
          ((or_wrap create_entity (λ _. sid)
              >>= add_named_role world p session entity_id role_name actions members)
            w)
  named session entity_id role_name actions members w (err _, w1) kept = inl kept
  named session entity_id role_name actions members w (ok sid, w1) kept =
      from-Unchanged policy _ rollback_roles_error w w1 _ kept (
        validated session entity_id role_name actions members (validate_actions p.actions actions)
          w1 sid)

  -- AddRole adds all of the policies of the new role or, with an error, none of them, unless the
  -- error says that they could not be taken back.
  pub add_role-AllOrNothing :
      (session : Session) (entity_id role_name : String) (actions members : List String) (w : W)
      → AllOrNothing policy rollback_roles_error
          (role_wanted session entity_id actions members (new_sid w).0)
          w
          (add_role world p session entity_id role_name actions members w)
  unfolding add_role
  add_role-AllOrNothing session entity_id role_name actions members w =
      named session entity_id role_name actions members w (new_sid w) (world.sid_keeps w)

  provision_all-AllOrNothing :
      (prs : List Policy) (rps : List RoleProvision) (w : W)
      → AllOrNothing policy rollback_roles_error prs w (provision_all world p prs rps w)
  provision_all-AllOrNothing [] rps w =
      nothing-AllOrNothing policy rollback_roles_error w
        (or_wrap create_entity (repo.add_roles rps) w) (world.add_roles_keeps rps w)
  provision_all-AllOrNothing (pr ∷ prs) rps w =
      adding-AllOrNothing policy (pr ∷ prs) create_entity rollback_roles_error
        (or_wrap create_entity (repo.add_roles rps)) w (world.add_roles_keeps rps)

  module _ (domain_id user_id : String) where
    missing_kept :
        (name : String) (found : Option (List String)) → Same (or_missing_role world p name found)
    missing_kept name none w r = refl
    missing_kept name (some acts) w r = refl

    plan_role_kept :
        (entity_id name : String) (members : List String)
        → Same (plan_role world p domain_id user_id entity_id name members)
    plan_role_kept entity_id name members w r =
        >>=-Keeps (λ z. policy.holds z r)
          (or_missing_role world p name (built_in_role_actions p.built_in_roles name))
          (plan_granted world p domain_id user_id entity_id name members)
          (λ z. missing_kept name (built_in_role_actions p.built_in_roles name) z r)
          (λ acts.
            >>=-Keeps (λ z. policy.holds z r) (or_wrap create_entity new_sid)
              (plan_named world p domain_id user_id entity_id name members acts)
              (λ z. world.sid_keeps z r)
              (λ sid.
                >>=-Keeps (λ z. policy.holds z r)
                  (or_wrap malformed_entity (read (λ _. validate_actions p.actions acts)))
                  (λ _ z. (
                    ok (
                        role_plan p domain_id user_id entity_id (join p.entity_type (join "_" sid))
                          name acts members (now z)),
                    z,
                  ))
                  (λ z. refl) (λ _ z. refl)))
          w

    plan_roles_kept :
        (entity_id : String) (roles : List (String × List String))
        → Same (plan_roles world p domain_id user_id entity_id roles)
    unfolding plan_roles
    plan_roles_kept entity_id [] w r = refl
    plan_roles_kept entity_id ((name, members) ∷ rest) w r =
        >>=-Keeps (λ z. policy.holds z r)
          (plan_role world p domain_id user_id entity_id name members)
          (λ first. plan_roles world p domain_id user_id entity_id rest >>= λ others.
            pure (join_plans first others))
          (λ z. plan_role_kept entity_id name members z r)
          (λ first.
            >>=-Keeps (λ z. policy.holds z r) (plan_roles world p domain_id user_id entity_id rest)
              (λ others. pure (join_plans first others)) (λ z. plan_roles_kept entity_id rest z r)
              (λ others z. refl))
          w

    plan_entities_kept :
        (entity_ids : List String) (roles : List (String × List String))
        → Same (plan_entities world p domain_id user_id entity_ids roles)
    unfolding plan_entities
    plan_entities_kept [] roles w r = refl
    plan_entities_kept (entity_id ∷ rest) roles w r =
        >>=-Keeps (λ z. policy.holds z r) (plan_roles world p domain_id user_id entity_id roles)
          (λ first. plan_entities world p domain_id user_id rest roles >>= λ others.
            pure (join_plans first others))
          (λ z. plan_roles_kept entity_id roles z r)
          (λ first.
            >>=-Keeps (λ z. policy.holds z r) (plan_entities world p domain_id user_id rest roles)
              (λ others. pure (join_plans first others)) (λ z. plan_entities_kept rest roles z r)
              (λ others z. refl))
          w

  -- The policies that AddNewEntitiesRoles is to add, of its plan and those given to it.
  abbrev pub entities_wanted : List Policy → Result Plan → List Policy
  entities_wanted optional (err _) = []
  entities_wanted optional (ok plan) = plan.policies ++ optional

  planned :
      (optional : List Policy) (w : W) (end : Result Plan × W)
      → Unchanged policy w end.1
      → AllOrNothing policy rollback_roles_error (entities_wanted optional end.0) w (
          ((λ _. end) >>= λ plan. provision_all world p (plan.policies ++ optional) plan.provisions)
            w)
  planned optional w (err _, w1) kept = inl kept
  planned optional w (ok plan, w1) kept =
      from-Unchanged policy (plan.policies ++ optional) rollback_roles_error w w1 _ kept
        (provision_all-AllOrNothing (plan.policies ++ optional) plan.provisions w1)

  -- AddNewEntitiesRoles adds all of the policies that it planned and was given or, with an error,
  -- none of them, unless the error says that they could not be taken back.
  pub add_new_entities_roles-AllOrNothing :
      (domain_id user_id : String) (entity_ids : List String) (optional : List Policy)
      (roles : List (String × List String)) (w : W)
      → AllOrNothing policy rollback_roles_error
          (entities_wanted optional (plan_entities world p domain_id user_id entity_ids roles w).0)
          w
          (add_new_entities_roles world p domain_id user_id entity_ids optional roles w)
  unfolding add_new_entities_roles
  add_new_entities_roles-AllOrNothing domain_id user_id entity_ids optional roles w =
      planned optional w (plan_entities world p domain_id user_id entity_ids roles w)
        (plan_entities_kept domain_id user_id entity_ids roles w)

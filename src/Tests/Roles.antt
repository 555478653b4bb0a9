-- ===== src/Tests/Roles.antt =====
-- The theorems on pkg/roles applied to a repository with one role and to a set of relationships.
use supermq.Common.{ℕ, ◌≡◌, refl, List, [], ◌∷◌}
use supermq.Errors.{ok}
use supermq.Service.Laws.{Ends, Returns}
use supermq.Policies.{listed}
use supermq.Policies.Atomic.{Unchanged, AllOrNothing}
use supermq.Policies.Deleting.{NothingNew}
use supermq.Roles.Data.{Repository, RoleWorld, EntityActionRole, EntityMemberRole}
use supermq.Roles.Policy.{action_policy}
use supermq.Roles.Manage.{rollback_roles_error, add_role, role_add_members, role_remove_members}
use supermq.Roles.Provision.{plan_entities, add_new_entities_roles, remove_entities_roles}
use supermq.Roles.Adding.{members_wanted, role_add_members-AllOrNothing}
use supermq.Roles.Provisioning.{
  role_wanted, entities_wanted, add_role-AllOrNothing, add_new_entities_roles-AllOrNothing,
}
use supermq.Roles.Plans.{IsPlan, asked_entities, plan_entities-IsPlan}
use supermq.Roles.Removing.{remove-add_members}
use supermq.Roles.Cleanup.{Remains, remove_entities_roles-Ends}
use supermq.Tests.RoleWorld.{
  one_role, stored_role, lens_store, Set, set_store, role_world, domain_roles, admin_session,
  nothing,
}

abbrev with_u2 : Set
with_u2 =
    (role_add_members role_world domain_roles admin_session "d1" "domain_r1" ("u2" ∷ []) nothing).1

abbrev without_u2 : Set
without_u2 =
    (role_remove_members role_world domain_roles admin_session "d1" "domain_r1" ("u2" ∷ [])
      with_u2).1

role_add_members_example :
    AllOrNothing set_store rollback_roles_error
      (members_wanted role_world domain_roles admin_session
        ("u2" ∷ [])
        (role_world.repo.retrieve_entity_role "d1" "domain_r1" nothing))
      nothing
      (role_add_members role_world domain_roles admin_session "d1" "domain_r1" ("u2" ∷ []) nothing)
role_add_members_example =
    role_add_members-AllOrNothing role_world domain_roles admin_session "d1" "domain_r1" ("u2" ∷ [])
      nothing

add_role_example :
    AllOrNothing set_store rollback_roles_error
      (role_wanted role_world domain_roles admin_session "d1" ("read" ∷ []) ("u2" ∷ []) (ok "r2"))
      nothing
      (add_role role_world domain_roles admin_session "d1" "editor"
        ("read" ∷ [])
        ("u2" ∷ [])
        nothing)
add_role_example =
    add_role-AllOrNothing role_world domain_roles admin_session "d1" "editor" ("read" ∷ [])
      ("u2" ∷ []) nothing

add_new_entities_roles_example :
    AllOrNothing set_store rollback_roles_error
      (entities_wanted role_world domain_roles []
        (plan_entities role_world domain_roles "d1" "u1"
          ("d1" ∷ [])
          (("admin", "u1" ∷ []) ∷ [])
          nothing).0)
      nothing
      (add_new_entities_roles role_world domain_roles "d1" "u1"
        ("d1" ∷ [])
        []
        (("admin", "u1" ∷ []) ∷ [])
        nothing)
add_new_entities_roles_example =
    add_new_entities_roles-AllOrNothing role_world domain_roles "d1" "u1" ("d1" ∷ []) []
      (("admin", "u1" ∷ []) ∷ []) nothing

plan_entities_example :
    Returns
      (IsPlan domain_roles "d1"
        (asked_entities "u1" ("d1" ∷ "d2" ∷ []) (("admin", "u1" ∷ []) ∷ [])))
      (plan_entities role_world domain_roles "d1" "u1"
        ("d1" ∷ "d2" ∷ [])
        (("admin", "u1" ∷ []) ∷ [])
        nothing)
plan_entities_example =
    plan_entities-IsPlan domain_roles "d1" role_world "u1" ("d1" ∷ "d2" ∷ [])
      (("admin", "u1" ∷ []) ∷ []) nothing

-- A store whose role is stamped by each change of its members, as the UPDATE of its row does.
record Stamped : Type 0 where
  relationships : Set
  stamp : ℕ

abbrev stamped_repo : Repository Stamped
stamped_repo =
    let any : Repository Stamped = one_role in
    record any {
      retrieve_entity_role =
          λ entity_id role_id w. ok (record stored_role { updated_at = w.stamp });
      add_members = λ ro ms w. (ok ms, record w { stamp = ro.updated_at });
      remove_members = λ ro ms w. (ok tt, record w { stamp = ro.updated_at });
    }

abbrev stamped_world : RoleWorld Stamped
stamped_world = record {
  policy = lens_store (λ w. w.relationships) (λ s w. record w { relationships = s }) (λ s w. refl);
  repo = stamped_repo;
  new_sid = λ w. (ok "r2", w);
  now = λ w. 7;
  sid_keeps = λ w r. refl;
  add_roles_keeps = λ rs w r. refl;
  remove_roles_keeps = λ ids w r. refl;
  add_actions_keeps = λ ro acts w r. refl;
  remove_actions_keeps = λ ro acts w r. refl;
  remove_all_actions_keeps = λ ro w r. refl;
  add_members_keeps = λ ro ms w r. refl;
  remove_members_keeps = λ ro ms w r. refl;
  remove_all_members_keeps = λ ro w r. refl;
}

abbrev unstamped : Stamped
unstamped = record { relationships = nothing; stamp = 0 }

abbrev stamped_u2 : Stamped
stamped_u2 =
    (role_add_members stamped_world domain_roles admin_session "d1" "domain_r1" ("u2" ∷ [])
      unstamped).1

abbrev stamped_without_u2 : Stamped
stamped_without_u2 =
    (role_remove_members stamped_world domain_roles admin_session "d1" "domain_r1" ("u2" ∷ [])
      stamped_u2).1

remove-add_members_example : Unchanged stamped_world.policy unstamped stamped_without_u2
unfolding role_add_members role_remove_members listed
remove-add_members_example =
    remove-add_members stamped_world domain_roles admin_session "d1" "domain_r1" ("u2" ∷ [])
      ("u2" ∷ []) stored_role (record stored_role { updated_at = 7 }) unstamped stamped_u2
      stamped_without_u2 refl refl refl refl refl

remove_entities_roles_example :
    Ends
      (λ _ w'.
        (pairs : List EntityActionRole × List EntityMemberRole)
        × (role_world.repo.retrieve_actions_members ("d1" ∷ []) with_u2 ≡ ok pairs)
        × Remains role_world domain_roles "d1" pairs []
            (action_policy "domain" "domain_r1" "d1" "update" ∷ [])
            with_u2
            w')
      (λ _ w'. NothingNew set_store with_u2 w')
      (remove_entities_roles role_world domain_roles "d1"
        ("d1" ∷ [])
        []
        (action_policy "domain" "domain_r1" "d1" "update" ∷ [])
        with_u2)
remove_entities_roles_example =
    remove_entities_roles-Ends role_world domain_roles "d1" ("d1" ∷ []) []
      (action_policy "domain" "domain_r1" "d1" "update" ∷ []) with_u2

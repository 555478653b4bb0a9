-- ===== src/Roles/Memberships.antt =====
-- The operations of pkg/roles/provisionmanage.go that delete by a filter: RemoveRole,
-- RoleRemoveAllActions, RoleRemoveAllMembers and RemoveMemberFromAllRoles.
use Prim.Native.String.{◌++◌ as join}
use supermq.Common.{◌≡◌, refl, ap, ◌∙◌, ◌⊎◌, inl, inr, false, not, ◌&&◌, String, [], ◌∷◌}
use supermq.Errors.{Err, foreign, Result, ok, err}
use supermq.Service.{fail, Action, ◌>>=◌, ◌>>◌, read, or_wrap, remove_entity, delete_policies_error}
use supermq.Service.Laws.{Ends, >>=-Ends}
use supermq.Policies.{Policy, to_relationship}
use supermq.Policies.Atomic.{Unchanged}
use supermq.Policies.Deleting.{
  Filtered, NothingNew, Unchanged→NothingNew, Filtered→NothingNew, delete_filter-Ends,
}
use supermq.Roles.Data.{Role, Session, RoleWorld, Provisioner}
use supermq.Roles.Policy.{action_policy, member_policy}
use supermq.Roles.Matching.{not_member, is_action, is_member, is_any_member}
use supermq.Roles.Manage.{
  role_filter, members_filter, memberships_filter, touched, touch, drop_role, drop_all_actions,
  drop_all_members, drop_all_memberships, remove_role, role_remove_all_actions,
  role_remove_all_members, remove_member_from_all_roles,
}

module _ {W : Type 0} (world : RoleWorld W) (p : Provisioner) where
  open world use {policy, repo}

  -- What the filter matches is deleted; or it is an error, and it may be deleted all the same.
  abbrev pub DeletesFilter : Policy → W → Result (Unit {0}) × W → Type 0
  DeletesFilter f w =
      Ends (λ _ w'. Filtered policy f w w') (λ _ w'. Unchanged policy w w' ⊎ Filtered policy f w w')

  after_filter :
      (f : Policy) (w : W) (end : Result (Unit {0}) × W)
      → Filtered policy f w end.1
      → DeletesFilter f w end
  after_filter f w (ok _, w') gone = gone
  after_filter f w (err _, w') gone = inr gone

  filter-DeletesFilter :
      (f : Policy) (e : Err) (rest : Action W (Unit {0})) (w : W)
      → ((w1 : W) → Unchanged policy w1 (rest w1).1)
      → DeletesFilter f w ((or_wrap e (policy.delete_filter f) >> rest) w)
  filter-DeletesFilter f e rest w kept =
      >>=-Ends (λ _ w'. Filtered policy f w w') (λ _ w'. Unchanged policy w w')
        (λ _ w'. Filtered policy f w w') (λ _ w'. Unchanged policy w w' ⊎ Filtered policy f w w')
        (or_wrap e (policy.delete_filter f) w) (λ _. rest) w (delete_filter-Ends policy f e w)
        (λ _ w1 gone. after_filter f w (rest w1) (λ r. kept w1 r ∙ gone r)) (λ _ w1 same. inl same)

  -- No action is granted to the members of the found role if there is no error; and whatever
  -- happens, every membership of a role is held exactly if it was.
  abbrev pub ActionsGone : Result Role → W → Result (Unit {0}) × W → Type 0
  ActionsGone found w end =
      Ends
        (λ _ w'.
          (ro : Role) × (found ≡ ok ro)
          × ((entity_id action : String)
              → policy.holds w'
                  (to_relationship (action_policy p.entity_type ro.id entity_id action))
                ≡ false))
        (λ _ _. Unit) end
      × ((domain_id role_id member : String)
          → policy.holds end.1 (to_relationship (member_policy domain_id role_id member))
            ≡ policy.holds w (to_relationship (member_policy domain_id role_id member)))

  memberships_kept :
      (id : String) (w w' : W)
      → Filtered policy (role_filter id) w w'
      → (domain_id role_id member : String)
      → policy.holds w' (to_relationship (member_policy domain_id role_id member))
        ≡ policy.holds w (to_relationship (member_policy domain_id role_id member))
  memberships_kept id w w' gone domain_id role_id member =
      let r = to_relationship (member_policy domain_id role_id member) in
      gone r ∙ ap (λ m. not m && policy.holds w r) (not_member id domain_id role_id member)

  actions_gone :
      (ro : Role) (w : W) (end : Result (Unit {0}) × W)
      → DeletesFilter (role_filter ro.id) w end
      → ActionsGone (ok ro) w end
  actions_gone ro w (ok _, w') gone = (
    (
      ro,
      refl,
      λ entity_id action.
          let r = to_relationship (action_policy p.entity_type ro.id entity_id action) in
          gone r
          ∙ ap (λ m. not m && policy.holds w r) (is_action p.entity_type entity_id action ro.id),
    ),
    memberships_kept ro.id w w' gone,
  )
  actions_gone ro w (err _, w') (inl same) = (tt, λ domain_id role_id member. same _)
  actions_gone ro w (err _, w') (inr gone) = (tt, memberships_kept ro.id w w' gone)

  found_role :
      (found : Result Role) (w : W)
      → ActionsGone found w ((or_wrap remove_entity (read (λ _. found)) >>= drop_role world p) w)
  found_role (err _) w = (tt, λ domain_id role_id member. refl)
  found_role (ok ro) w = actions_gone ro w (drop_role world p ro w) (
      filter-DeletesFilter (role_filter ro.id) remove_entity
        (or_wrap remove_entity (repo.remove_roles (ro.id ∷ []))) w
        (world.remove_roles_keeps (ro.id ∷ [])))

  -- RemoveRole without an error takes every action on the service's entities from the role. It
  -- leaves the members as relationships: with an error or without, every membership of a role is
  -- held exactly if it was.
  pub remove_role-ActionsGone :
      (entity_id role_id : String) (w : W)
      → ActionsGone
          (repo.retrieve_entity_role entity_id role_id w)
          w
          (remove_role world p entity_id role_id w)
  unfolding remove_role
  remove_role-ActionsGone entity_id role_id w =
      found_role (repo.retrieve_entity_role entity_id role_id w) w

  found_for_actions :
      (session : Session) (found : Result Role) (w : W)
      → ActionsGone found w
          ((or_wrap remove_entity (read (λ _. found)) >>= drop_all_actions world p session) w)
  found_for_actions session (err _) w = (tt, λ domain_id role_id member. refl)
  found_for_actions session (ok ro) w = actions_gone ro w (drop_all_actions world p session ro w) (
      filter-DeletesFilter (role_filter ro.id) delete_policies_error
        (touch world p session ro >>= λ ro'. or_wrap remove_entity (repo.remove_all_actions ro')) w
        (λ w1. world.remove_all_actions_keeps (touched session ro (world.now w1)) w1))

  -- RoleRemoveAllActions without an error takes every action on the service's entities from the
  -- role. With an error or without, every membership of a role is held exactly if it was.
  pub role_remove_all_actions-ActionsGone :
      (session : Session) (entity_id role_id : String) (w : W)
      → ActionsGone
          (repo.retrieve_entity_role entity_id role_id w)
          w
          (role_remove_all_actions world p session entity_id role_id w)
  unfolding role_remove_all_actions
  role_remove_all_actions-ActionsGone session entity_id role_id w =
      found_for_actions session (repo.retrieve_entity_role entity_id role_id w) w

  -- Nobody is a member of the found role if there is no error; and whatever happens no
  -- relationship is held that was not.
  abbrev pub MembersGone : Result Role → W → Result (Unit {0}) × W → Type 0
  MembersGone found w end =
      Ends
        (λ _ w'.
          (ro : Role) × (found ≡ ok ro)
          × ((domain_id member : String)
              → policy.holds w' (to_relationship (member_policy domain_id ro.id member)) ≡ false))
        (λ _ _. Unit) end
      × NothingNew policy w end.1

  members_gone :
      (ro : Role) (w : W) (end : Result (Unit {0}) × W)
      → DeletesFilter (members_filter ro.id) w end
      → MembersGone (ok ro) w end
  members_gone ro w (ok _, w') gone = (
    (
      ro,
      refl,
      λ domain_id member.
          let r = to_relationship (member_policy domain_id ro.id member) in
          gone r ∙ ap (λ m. not m && policy.holds w r) (is_member domain_id ro.id member),
    ),
    Filtered→NothingNew policy (members_filter ro.id) w w' gone,
  )
  members_gone ro w (err _, w') (inl same) = (tt, Unchanged→NothingNew policy w w' same)
  members_gone ro w (err _, w') (inr gone) =
      (tt, Filtered→NothingNew policy (members_filter ro.id) w w' gone)

  found_for_members :
      (session : Session) (found : Result Role) (w : W)
      → MembersGone found w
          ((or_wrap remove_entity (read (λ _. found)) >>= drop_all_members world p session) w)
  found_for_members session (err _) w = (tt, λ r h. h)
  found_for_members session (ok ro) w = members_gone ro w (drop_all_members world p session ro w) (
      filter-DeletesFilter (members_filter ro.id) delete_policies_error
        (touch world p session ro >>= λ ro'. or_wrap remove_entity (repo.remove_all_members ro')) w
        (λ w1. world.remove_all_members_keeps (touched session ro (world.now w1)) w1))

  -- RoleRemoveAllMembers, without an error, leaves the role no member, in any domain, and adds no
  -- relationship.
  pub role_remove_all_members-MembersGone :
      (session : Session) (entity_id role_id : String) (w : W)
      → MembersGone
          (repo.retrieve_entity_role entity_id role_id w)
          w
          (role_remove_all_members world p session entity_id role_id w)
  unfolding role_remove_all_members
  role_remove_all_members-MembersGone session entity_id role_id w =
      found_for_members session (repo.retrieve_entity_role entity_id role_id w) w

  -- The members that a failed call leaves are those it had, or none of the entity type's roles
  -- have any, whoever the member was.
  abbrev pub AllStripped : W → Err → W → Type 0
  AllStripped w e w' =
      Unchanged policy w w'
      ⊎ ((domain_id sid other : String)
          → policy.holds w'
              (to_relationship (member_policy domain_id (join p.entity_type (join "_" sid)) other))
            ≡ false)

  stripped :
      (w w1 : W) (end : Result (Unit {0}) × W)
      → Unchanged policy w w1
      → Ends
          (λ _ w'. Filtered policy (memberships_filter p.entity_type) w1 w')
          (λ _ w'. Unchanged policy w1 w')
          end
      → Ends
          (λ _ _. ⊥)
          (AllStripped w)
          (((λ _. end) >> fail {A = Unit {0}} (foreign "not implemented")) w1)
  stripped w w1 (ok _, w') kept gone = inr (λ domain_id sid other.
      let r = to_relationship (member_policy domain_id (join p.entity_type (join "_" sid)) other) in
      gone r
      ∙ ap (λ m. not m && policy.holds w1 r) (is_any_member p.entity_type domain_id sid other))
  stripped w w1 (err _, w') kept same = inl (λ r. same r ∙ kept r)

  member_removed :
      (w : W) (end : Result (Unit {0}) × W)
      → Unchanged policy w end.1
      → Ends
          (λ _ _. ⊥)
          (AllStripped w)
          ((or_wrap remove_entity (λ _. end) >> drop_all_memberships world p) w)
  member_removed w (err _, w1) kept = inl kept
  member_removed w (ok _, w1) kept =
      stripped w w1
        (or_wrap delete_policies_error (policy.delete_filter (memberships_filter p.entity_type)) w1)
        kept (delete_filter-Ends policy (memberships_filter p.entity_type) delete_policies_error w1)

  -- RemoveMemberFromAllRoles never succeeds. Either it changes no policy, or it takes every user
  -- out of every role whose ID begins with the entity type and an underscore, not the member that
  -- it is given alone. The repository's call is to leave the policies as they are.
  pub remove_member_from_all_roles-AllStripped :
      (member : String) (w : W)
      → Unchanged policy w (repo.remove_member_from_all_roles member w).1
      → Ends (λ _ _. ⊥) (AllStripped w) (remove_member_from_all_roles world p member w)
  unfolding remove_member_from_all_roles
  remove_member_from_all_roles-AllStripped member w kept =
      member_removed w (repo.remove_member_from_all_roles member w) kept

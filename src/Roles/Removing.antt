-- ===== src/Roles/Removing.antt =====
-- The operations of pkg/roles/provisionmanage.go that take back a role's actions and members.
use supermq.Common.{
  subst, Bool, ◌≡◌, refl, sym, ap, ◌∙◌, ◌⊎◌, inl, inr, true, false, not, ◌&&◌, ◌||◌, String, List,
  [], ◌∷◌,
}
use supermq.Errors.{Err, Result, ok, err}
use supermq.Service.{Action, ◌>>=◌, ◌>>◌, read, or_wrap, remove_entity, delete_policies_error}
use supermq.Service.Laws.{Ends, >>=-Ends}
use supermq.Policies.{Policy, listed}
use supermq.Policies.Atomic.{Unchanged, Deleted, AllOrNothing}
use supermq.Policies.Deleting.{delete-Ends}
use supermq.Roles.Data.{Role, Session, RoleWorld, Provisioner}
use supermq.Roles.Policy.{action_policies, member_policies}
use supermq.Roles.Manage.{
  rollback_roles_error, touched, drop_actions, drop_members, save_without_actions,
  save_without_members, role_remove_actions, role_remove_members, role_add_members,
}
use supermq.Roles.Adding.{members_wanted, actions_wanted, role_add_members-AllOrNothing}

module _ {W : Type 0} (world : RoleWorld W) (p : Provisioner) (session : Session) where
  open world use {policy, repo}

  -- The policies are deleted; or it is an error, and they may be deleted all the same.
  abbrev pub Deletes : {A : Type 0} → List Policy → W → Result A × W → Type 0
  Deletes prs w =
      Ends (λ _ w'. Deleted policy prs w w')
        (λ _ w'. Unchanged policy w w' ⊎ Deleted policy prs w w')

  after_delete :
      (prs : List Policy) (w : W) (end : Result (Unit {0}) × W)
      → Deleted policy prs w end.1
      → Deletes prs w end
  after_delete prs w (ok _, w') gone = gone
  after_delete prs w (err _, w') gone = inr gone

  delete-Deletes :
      (prs : List Policy) (e : Err) (rest : Action W (Unit {0})) (w : W)
      → ((w1 : W) → Unchanged policy w1 (rest w1).1)
      → Deletes prs w ((or_wrap e (policy.delete prs) >> rest) w)
  delete-Deletes prs e rest w kept =
      >>=-Ends (λ _ w'. Deleted policy prs w w') (λ _ w'. Unchanged policy w w')
        (λ _ w'. Deleted policy prs w w') (λ _ w'. Unchanged policy w w' ⊎ Deleted policy prs w w')
        (or_wrap e (policy.delete prs) w) (λ _. rest) w (delete-Ends policy prs e w)
        (λ _ w1 gone. after_delete prs w (rest w1) (λ r. kept w1 r ∙ gone r))
        (λ _ w1 same. inl same)

  found_members :
      (members : List String) (found : Result Role) (w : W)
      → Deletes
          (members_wanted world p session members found)
          w
          ((or_wrap remove_entity (read (λ _. found)) >>= drop_members world p session members) w)
  found_members members (err _) w = inl (λ r. refl)
  found_members [] (ok ro) w = inl (λ r. refl)
  found_members (m ∷ ms) (ok ro) w =
      delete-Deletes (member_policies session.domain_id ro.id (m ∷ ms)) delete_policies_error
        (save_without_members world p session (m ∷ ms) ro) w
        (λ w1 r. world.remove_members_keeps (touched session ro (world.now w1)) (m ∷ ms) w1 r)

  -- RoleRemoveMembers deletes the members' policies and nothing else. With an error the policies
  -- are as before or deleted: they are not added back when the repository fails.
  pub role_remove_members-Deletes :
      (entity_id role_id : String) (members : List String) (w : W)
      → Deletes
          (members_wanted world p session members (repo.retrieve_entity_role entity_id role_id w))
          w
          (role_remove_members world p session entity_id role_id members w)
  unfolding role_remove_members
  role_remove_members-Deletes entity_id role_id members w =
      found_members members (repo.retrieve_entity_role entity_id role_id w) w

  found_actions :
      (entity_id : String) (actions : List String) (found : Result Role) (w : W)
      → Deletes (actions_wanted world p session entity_id actions found) w (
          (or_wrap remove_entity (read (λ _. found))
              >>= drop_actions world p session entity_id actions)
            w)
  found_actions entity_id actions (err _) w = inl (λ r. refl)
  found_actions entity_id [] (ok ro) w = inl (λ r. refl)
  found_actions entity_id (a ∷ acts) (ok ro) w =
      delete-Deletes (action_policies p.entity_type ro.id entity_id (a ∷ acts))
        delete_policies_error (save_without_actions world p session (a ∷ acts) ro) w
        (λ w1 r. world.remove_actions_keeps (touched session ro (world.now w1)) (a ∷ acts) w1 r)

  -- RoleRemoveActions deletes the actions' policies and nothing else. With an error the policies
  -- are as before or deleted: they are not added back when the repository fails.
  pub role_remove_actions-Deletes :
      (entity_id role_id : String) (actions : List String) (w : W)
      → Deletes
          (actions_wanted world p session entity_id actions
            (repo.retrieve_entity_role entity_id role_id w))
          w
          (role_remove_actions world p session entity_id role_id actions w)
  unfolding role_remove_actions
  role_remove_actions-Deletes entity_id role_id actions w =
      found_actions entity_id actions (repo.retrieve_entity_role entity_id role_id w) w

  cancels : (l h g : Bool) → (l ≡ true → h ≡ false) → g ≡ (l || h) → (not l && g) ≡ h
  cancels true h g fresh e = sym (fresh refl)
  cancels false h g fresh e = e

  wanted_by_id :
      (members : List String) (ro : Role) (found : Result Role)
      → found ≡ ok ro
      → members_wanted world p session members found
        ≡ member_policies session.domain_id ro.id members
  wanted_by_id members ro found e = ap (members_wanted world p session members) e

  -- RoleRemoveMembers after RoleAddMembers: if both succeed, and the role that the repository has
  -- in between is one of the same ID, whatever else of it has changed, the policy store holds what
  -- it held before.
  pub remove-add_members :
      (entity_id role_id : String) (members added : List String) (ro ro1 : Role) (w w1 w2 : W)
      → ◌≡◌ {A = Result (List String) × W}
          (role_add_members world p session entity_id role_id members w)
          (ok added, w1)
      → ◌≡◌ {A = Result (Unit {0}) × W}
          (role_remove_members world p session entity_id role_id members w1)
          (ok tt, w2)
      → repo.retrieve_entity_role entity_id role_id w ≡ ok ro
      → repo.retrieve_entity_role entity_id role_id w1 ≡ ok ro1
      → ro1.id ≡ ro.id
      → Unchanged policy w w2
  remove-add_members entity_id role_id members added ro ro1 w w1 w2 adds removes found found1 same
        r =
      let prs = member_policies session.domain_id ro.id members in
      let (fresh, came) =
        subst (λ l. AllOrNothing policy rollback_roles_error l w (ok added, w1))
          (wanted_by_id members ro (repo.retrieve_entity_role entity_id role_id w) found)
          (subst
            (λ end.
              AllOrNothing policy rollback_roles_error
                (members_wanted world p session members
                  (repo.retrieve_entity_role entity_id role_id w))
                w end)
            adds (role_add_members-AllOrNothing world p session entity_id role_id members w)) in
      let gone =
        subst (λ l. Deleted policy l w1 w2)
          (wanted_by_id members ro1 (repo.retrieve_entity_role entity_id role_id w1) found1
            ∙ ap (λ id. member_policies session.domain_id id members) same)
          (subst
            (λ end.
              Deletes
                (members_wanted world p session members
                  (repo.retrieve_entity_role entity_id role_id w1))
                w1 end)
            removes (role_remove_members-Deletes entity_id role_id members w1)) in
      gone r ∙ cancels (listed prs r) (policy.holds w r) (policy.holds w1 r) (fresh r) (came r)

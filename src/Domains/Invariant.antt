-- ===== src/Domains/Invariant.antt =====
-- An invitation is never both accepted and rejected, whatever calls of domains/service.go run.
use text.Mathlib.Text.{◌==◌}
use supermq.Common.{◌≡◌, refl, sym, ap, ◌∙◌, subst, ◌⊎◌, inl, inr, not, some, String, List, [], ◌∷◌}
use supermq.Errors.{Result, ok, err}
use supermq.Service.{
  ◌>>=◌, pure, fail_if, read, or_wrap, undoing, view_entity, update_entity, add_policies_error,
  malformed_entity,
}
use supermq.Service.Laws.{>>=-Keeps, fail_if-Keeps, undoing-Keeps, >>=-after, Ends}
use supermq.Roles.Data.{Session, Provisioner}
use supermq.Roles.Policy.{member_policies}
use supermq.Roles.Manage.{
  is_empty, rollback_roles_error, touched, entity_role, adding_policies, save_members,
  grant_members, role_add_members,
}
use supermq.Domains.Data.{Invitation, DomainWorld, KeepsInvitations}
use supermq.Domains.Invite.{
  authorization, already_accepted, already_rejected, is_set, confirmed, populate_details, confirm,
  admit, accept_found, accept_invitation,
}
use supermq.Domains.Pending.{is_set-zero, Named, checked, populate_details-Populated}

module _ {W : Type 0} (world : DomainWorld W) (p : Provisioner) where
  open world use {roles, repo}

  -- No stored invitation is both confirmed and rejected.
  abbrev pub OneAnswer : W → Type 0
  OneAnswer w =
      (user domain : String) (inv : Invitation)
      → repo.stored w user domain ≡ some inv
      → (inv.confirmed_at ≡ 0) ⊎ (inv.rejected_at ≡ 0)

  pub kept-OneAnswer :
      (w w1 : W)
      → ((user domain : String) → repo.stored w1 user domain ≡ repo.stored w user domain)
      → OneAnswer w
      → OneAnswer w1
  kept-OneAnswer w w1 kept one user domain inv e = one user domain inv (sym (kept user domain) ∙ e)

  pub role_add_members-KeepsInvitations :
      (session : Session) (entity_id role_id : String) (members : List String)
      → KeepsInvitations repo (role_add_members roles p session entity_id role_id members)
  unfolding role_add_members
  role_add_members-KeepsInvitations session entity_id role_id members user domain =
      let view = λ (w : W). repo.stored w user domain in
      >>=-Keeps view (entity_role roles p update_entity entity_id role_id)
        (grant_members roles p session members) (λ w. refl)
        (λ ro.
          >>=-Keeps view (fail_if (is_empty members) malformed_entity)
            (λ _.
              adding_policies roles p add_policies_error
                (member_policies session.domain_id ro.id members)
                (save_members roles p session members ro))
            (fail_if-Keeps view (is_empty members) malformed_entity)
            (λ _.
              >>=-Keeps view
                (or_wrap add_policies_error
                  (roles.policy.add (member_policies session.domain_id ro.id members)))
                (λ _.
                  undoing (roles.policy.delete (member_policies session.domain_id ro.id members))
                    rollback_roles_error (save_members roles p session members ro))
                (world.policies_keep (member_policies session.domain_id ro.id members) user domain)
                (λ _.
                  undoing-Keeps view
                    (roles.policy.delete (member_policies session.domain_id ro.id members))
                    rollback_roles_error (save_members roles p session members ro)
                    (world.undo_keeps (member_policies session.domain_id ro.id members) user domain)
                    (λ w.
                      world.members_keep (touched session ro (roles.now w)) members user domain
                        w))))

  -- Confirming an invitation that is not rejected.
  abbrev Unrejected : W → String → String → Type 0
  Unrejected w user domain =
      (inv : Invitation) → repo.stored w user domain ≡ some inv → inv.rejected_at ≡ 0

  pub some_eq : (a b : Invitation) → some a ≡ some b → a ≡ b
  some_eq a b h = cc

  confirm_one :
      (inv : Invitation) (w : W)
      → OneAnswer w
      → Unrejected w inv.invitee_user_id inv.domain_id
      → OneAnswer (repo.update_confirmation inv w).1
  confirm_one inv w one unrejected user domain new e = elim (repo.confirms inv w user domain) [
    | inl same ↦ one user domain new (sym same ∙ e)
    | inr (old, was, u, d, now) ↦ inr (
        ap (λ i. i.rejected_at) (some_eq new _ (sym e ∙ now))
        ∙ unrejected old (
            ap (λ v. repo.stored w v inv.domain_id) (sym u)
            ∙ ap (λ v. repo.stored w user v) (sym d)
            ∙ was))
  ]

  admitted_one :
      (session : Session) (domain_id : String) (inv : Invitation) (w : W)
      → OneAnswer w
      → Unrejected w inv.invitee_user_id inv.domain_id
      → OneAnswer (admit world p session domain_id inv w).1
  admitted_one session domain_id inv w one unrejected =
      let session' = record session { domain_id = domain_id } in
      let joins = role_add_members roles p session' domain_id inv.role_id (session.user_id ∷ []) in
      let kept = λ (user domain : String).
        role_add_members-KeepsInvitations session' domain_id inv.role_id (session.user_id ∷ []) user
          domain w in
      >>=-after OneAnswer (or_wrap update_entity joins w) (λ _. confirm world p inv) w
        (kept-OneAnswer w (joins w).1 kept one)
        (λ _ w1 e.
          let here = λ (user domain : String).
            ap (λ z. repo.stored z.1 user domain) (sym e) ∙ kept user domain in
          >>=-after OneAnswer
            (or_wrap update_entity (repo.update_confirmation (confirmed inv (roles.now w1))) w1)
            (λ _. pure (confirmed inv (roles.now w1))) w1
            (confirm_one (confirmed inv (roles.now w1)) w1 (kept-OneAnswer w w1 here one)
              (λ old was. unrejected old (sym (here inv.invitee_user_id inv.domain_id) ∙ was)))
            (λ _ w2 e2.
              subst (λ z. OneAnswer z.1) e2
                (confirm_one (confirmed inv (roles.now w1)) w1 (kept-OneAnswer w w1 here one)
                  (λ old was.
                    unrejected old (sym (here inv.invitee_user_id inv.domain_id) ∙ was)))))

  populated_one :
      (session : Session) (domain_id : String) (inv : Invitation) (end : Result Invitation × W)
      (w : W)
      → Ends (λ named w'. (w' ≡ w) × Named inv named) (λ _ w'. w' ≡ w) end
      → OneAnswer w
      → Unrejected w inv.invitee_user_id inv.domain_id
      → OneAnswer (((λ _. end) >>= admit world p session domain_id) w).1
  populated_one session domain_id inv (err _, w1) w same one unrejected =
      subst OneAnswer (sym same) one
  populated_one session domain_id inv (ok named, w1) w (same, n) one unrejected =
      admitted_one session domain_id named w1 (subst OneAnswer (sym same) one) (λ old was.
        unrejected old (
          ap (λ z. repo.stored z inv.invitee_user_id inv.domain_id) (sym same)
          ∙ ap (λ u. repo.stored w1 u inv.domain_id) (sym n.invitee)
          ∙ ap (λ d. repo.stored w1 named.invitee_user_id d) (sym n.domain)
          ∙ was))

  found_one :
      (session : Session) (domain_id : String) (found : Result Invitation) (w : W)
      → found ≡ repo.retrieve_invitation session.user_id domain_id w
      → OneAnswer w
      → OneAnswer
          ((or_wrap view_entity (read (λ _. found)) >>= accept_found world p session domain_id) w).1
  found_one session domain_id (err _) w e one = one
  found_one session domain_id (ok inv) w e one =
      let was = repo.retrieves session.user_id domain_id w inv (sym e) in
      let (u, d) = repo.keyed session.user_id domain_id w inv was in
      checked world p OneAnswer (not (inv.invitee_user_id == session.user_id))
        (is_set inv.confirmed_at) (is_set inv.rejected_at) authorization already_accepted
        already_rejected
        (populate_details world p domain_id inv >>= admit world p session domain_id) w one
        (λ _ rejected_zero.
          populated_one session domain_id inv (populate_details world p domain_id inv w) w
            (populate_details-Populated world p domain_id inv w) one
            (λ old same.
              ap (λ i. i.rejected_at)
                (some_eq old inv (
                  sym same
                  ∙ ap (λ v. repo.stored w v inv.domain_id) u
                  ∙ ap (λ v. repo.stored w session.user_id v) d
                  ∙ was))
              ∙ is_set-zero inv.rejected_at rejected_zero))

  pub accept_invitation-OneAnswer :
      (session : Session) (domain_id : String) (w : W)
      → OneAnswer w
      → OneAnswer (accept_invitation world p session domain_id w).1
  unfolding accept_invitation
  accept_invitation-OneAnswer session domain_id w one =
      found_one session domain_id (repo.retrieve_invitation session.user_id domain_id w) w refl one

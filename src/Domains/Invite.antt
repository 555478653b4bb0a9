-- ===== src/Domains/Invite.antt =====
-- Invitations in domains/service.go.
use text.Mathlib.Text.{◌==◌}
use supermq.Common.{ℕ, zero, suc, String, Bool, true, false, not, some, [], ◌∷◌, if◌then◌else◌}
use supermq.Errors.{Err, new, request, authz, ok, wrap}
use supermq.Service.{
  Action, ◌>>=◌, ◌>>◌, pure, fail_if, read, or_wrap, create_entity, remove_entity, view_entity,
  update_entity,
}
use supermq.Roles.Data.{Role, Session, Provisioner}
use supermq.Roles.Manage.{role_add_members}
use supermq.Domains.Data.{Invitation, Domain, DomainWorld}

abbrev pub invalid_role : Err
invalid_role = new (some request) "invalid client role"

abbrev pub authorization : Err
authorization = new (some authz) "failed to perform authorization over the entity"

abbrev pub already_accepted : Err
already_accepted = new (some request) "invitation already accepted"

abbrev pub already_rejected : Err
already_rejected = new (some request) "invitation already rejected"

-- `!t.IsZero()`
abbrev pub is_set : ℕ → Bool
is_set zero = false
is_set (suc _) = true

abbrev pub confirmed : Invitation → ℕ → Invitation
confirmed inv time = record inv { confirmed_at = time; updated_at = time }

abbrev pub rejected : Invitation → ℕ → Invitation
rejected inv time = record inv { rejected_at = time; updated_at = time }

module _ {W : Type 0} (world : DomainWorld W) (p : Provisioner) where
  open world use {roles, repo}

  -- The second half of resendInvitation.
  abbrev pub reset_rejection : Invitation → Invitation → Action W (Unit {0})
  reset_rejection invitation inv w =
      if is_set inv.rejected_at
      then or_wrap update_entity
          (repo.update_rejection (record invitation { rejected_at = 0; updated_at = roles.now w }))
          w
      else (ok tt, w)

  -- resendInvitation
  abbrev pub resend_invitation : Invitation → Action W (Unit {0})
  resend_invitation invitation = do
    inv ←
        or_wrap view_entity
          (read (repo.retrieve_invitation invitation.invitee_user_id invitation.domain_id))
    fail_if (is_set inv.confirmed_at) already_accepted
    reset_rejection invitation inv

  -- SendInvitation once the names are known.
  abbrev pub send_named : Session → Invitation → Role → Domain → Action W Invitation
  send_named session invitation role domain w =
      let inv = record invitation {
        role_name = role.name;
        domain_name = domain.name;
        invited_by = session.user_id;
        created_at = roles.now w;
      } in
      ((if inv.resend
            then resend_invitation inv
            else or_wrap create_entity (repo.save_invitation inv))
          >> pure inv)
        w

  -- SendInvitation
  unfoldable pub send_invitation : Session → Invitation → Action W Invitation
  send_invitation session invitation = do
    role ← or_wrap invalid_role (read (repo.retrieve_role invitation.role_id))
    domain ← or_wrap view_entity (read (repo.retrieve_domain invitation.domain_id))
    send_named session invitation role domain

  -- The two halves of populateDetails.
  abbrev pub populate_domain : String → Invitation → Action W Invitation
  populate_domain domain_id inv =
      if inv.domain_name == ""
      then (or_wrap view_entity (read (repo.retrieve_domain domain_id)) >>= λ domain.
          pure (record inv { domain_name = domain.name }))
      else pure inv

  abbrev pub populate_role : Invitation → Action W Invitation
  populate_role inv =
      if inv.role_name == ""
      then (or_wrap view_entity (read (repo.retrieve_role inv.role_id)) >>= λ role.
          pure (record inv { role_name = role.name }))
      else pure inv

  abbrev pub populate_details : String → Invitation → Action W Invitation
  populate_details domain_id inv = populate_domain domain_id inv >>= populate_role

  -- The checks of AcceptInvitation and RejectInvitation.
  abbrev pub check_pending : Session → Invitation → Action W (Unit {0})
  check_pending session inv =
      fail_if (not (inv.invitee_user_id == session.user_id)) authorization
      >> (fail_if (is_set inv.confirmed_at) already_accepted
          >> fail_if (is_set inv.rejected_at) already_rejected)

  -- The end of AcceptInvitation.
  abbrev pub confirm : Invitation → Action W Invitation
  confirm inv w =
      (or_wrap update_entity (repo.update_confirmation (confirmed inv (roles.now w)))
          >> pure (confirmed inv (roles.now w)))
        w

  -- AcceptInvitation once the names are known.
  abbrev pub admit : Session → String → Invitation → Action W Invitation
  admit session domain_id inv =
      or_wrap update_entity (
        role_add_members roles p (record session { domain_id = domain_id }) domain_id inv.role_id
          (session.user_id ∷ []))
      >> confirm inv

  -- AcceptInvitation once it has the invitation.
  abbrev pub accept_found : Session → String → Invitation → Action W Invitation
  accept_found session domain_id inv =
      check_pending session inv >> (populate_details domain_id inv >>= admit session domain_id)

  -- AcceptInvitation
  unfoldable pub accept_invitation : Session → String → Action W Invitation
  accept_invitation session domain_id =
      or_wrap view_entity (read (repo.retrieve_invitation session.user_id domain_id))
      >>= accept_found session domain_id

  -- The end of RejectInvitation.
  abbrev pub refuse : Invitation → Action W Invitation
  refuse inv w =
      (or_wrap update_entity (repo.update_rejection (rejected inv (roles.now w)))
          >> pure (rejected inv (roles.now w)))
        w

  -- RejectInvitation once it has the invitation.
  abbrev pub reject_found : Session → String → Invitation → Action W Invitation
  reject_found session domain_id inv =
      check_pending session inv >> (populate_details domain_id inv >>= refuse)

  -- RejectInvitation
  unfoldable pub reject_invitation : Session → String → Action W Invitation
  reject_invitation session domain_id =
      or_wrap view_entity (read (repo.retrieve_invitation session.user_id domain_id))
      >>= reject_found session domain_id

  -- The checks of DeleteInvitation for somebody else's invitation.
  abbrev pub check_deletable : Invitation → Action W (Unit {0})
  check_deletable inv =
      fail_if (is_set inv.confirmed_at) (wrap remove_entity already_accepted)
      >> fail_if (is_set inv.rejected_at) (wrap remove_entity already_rejected)

  abbrev pub delete_of : String → String → Action W (Unit {0})
  delete_of invitee domain_id =
      or_wrap remove_entity (repo.delete_invitations domain_id (invitee ∷ []))

  -- DeleteInvitation
  unfoldable pub delete_invitation : Session → String → String → Action W (Unit {0})
  delete_invitation session invitee domain_id =
      if session.user_id == invitee
      then delete_of invitee domain_id
      else or_wrap remove_entity (read (repo.retrieve_invitation invitee domain_id)) >>= λ inv.
          check_deletable inv >> delete_of invitee domain_id

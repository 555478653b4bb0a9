-- ===== src/Domains/Runs.antt =====
-- Sequences of the invitation calls of domains/service.go.
use text.Mathlib.Text.{◌==◌}
use supermq.Common.{Bool, true, false, String, List, [], ◌∷◌, if◌then◌else◌}
use supermq.Errors.{Result, ok, err, wrap}
use supermq.Service.{
  ◌>>=◌, ◌>>◌, pure, fail_if, read, or_wrap, view_entity, create_entity, remove_entity,
}
use supermq.Roles.Data.{Role, Session, Provisioner}
use supermq.Domains.Data.{Invitation, Domain, DomainWorld}
use supermq.Domains.Invite.{
  invalid_role, already_accepted, already_rejected, is_set, send_named, send_invitation,
  resend_invitation, check_deletable, delete_of, delete_invitation, accept_invitation,
  reject_invitation,
}
use supermq.Domains.Invariant.{OneAnswer, accept_invitation-OneAnswer}
use supermq.Domains.Answers.{
  reject_invitation-OneAnswer, saved-One, deleted-One, updated-One, resent-One,
}

-- A call of the service by a session.
pub data Call : Type 0 where
  send : Session → Invitation → Call
  accept : Session → String → Call
  reject : Session → String → Call
  delete : Session → String → String → Call

module _ {W : Type 0} (world : DomainWorld W) (p : Provisioner) where
  open world use {roles, repo}

  abbrev One : W → Type 0
  One = OneAnswer world p

  -- The world after the calls, whatever they return.
  unfoldable pub run : List Call → W → W
  run [] w = w
  run (send session invitation ∷ calls) w =
      run calls (send_invitation world p session invitation w).1
  run (accept session domain_id ∷ calls) w =
      run calls (accept_invitation world p session domain_id w).1
  run (reject session domain_id ∷ calls) w =
      run calls (reject_invitation world p session domain_id w).1
  run (delete session invitee domain_id ∷ calls) w =
      run calls (delete_invitation world p session invitee domain_id w).1

  sent_if :
      (inv : Invitation) (test : Bool) (w : W)
      → One w
      → One
          (((if test
                then resend_invitation world p inv
                else or_wrap create_entity (repo.save_invitation inv))
              >> pure inv)
            w).1
  sent_if inv true w one =
      updated-One world p inv (resend_invitation world p inv) w (
        resent-One world p inv (repo.retrieve_invitation inv.invitee_user_id inv.domain_id w) w one)
  sent_if inv false w one =
      updated-One world p inv (or_wrap create_entity (repo.save_invitation inv)) w
        (saved-One world p inv w one)

  sent_named :
      (session : Session) (inv : Invitation) (role : Result Role) (domain : Result Domain) (w : W)
      → One w
      → One
          ((or_wrap invalid_role (read (λ _. role)) >>= λ ro.
              or_wrap view_entity (read (λ _. domain)) >>= λ d. send_named world p session inv ro d)
            w).1
  sent_named session inv (err _) domain w one = one
  sent_named session inv (ok ro) (err _) w one = one
  sent_named session inv (ok ro) (ok d) w one = sent_if _ inv.resend w one

  send_invitation-OneAnswer :
      (session : Session) (inv : Invitation) (w : W)
      → One w
      → One (send_invitation world p session inv w).1
  unfolding send_invitation
  send_invitation-OneAnswer session inv w one =
      sent_named session inv (repo.retrieve_role inv.role_id w)
        (repo.retrieve_domain inv.domain_id w) w one

  deletable-One :
      (invitee domain_id : String) (a b : Bool) (w : W)
      → One w
      → One
          (((fail_if a (wrap remove_entity already_accepted)
                >> fail_if b (wrap remove_entity already_rejected))
              >> delete_of world p invitee domain_id)
            w).1
  deletable-One invitee domain_id true b w one = one
  deletable-One invitee domain_id false true w one = one
  deletable-One invitee domain_id false false w one =
      deleted-One world p domain_id (invitee ∷ []) w one

  delete_found :
      (invitee domain_id : String) (found : Result Invitation) (w : W)
      → One w
      → One
          ((or_wrap remove_entity (read (λ _. found)) >>= λ inv.
              check_deletable world p inv >> delete_of world p invitee domain_id)
            w).1
  delete_found invitee domain_id (err _) w one = one
  delete_found invitee domain_id (ok inv) w one =
      deletable-One invitee domain_id (is_set inv.confirmed_at) (is_set inv.rejected_at) w one

  delete_if :
      (invitee domain_id : String) (own : Bool) (w : W)
      → One w
      → One
          ((if own
              then delete_of world p invitee domain_id
              else (or_wrap remove_entity (read (repo.retrieve_invitation invitee domain_id))
                  >>= λ inv. check_deletable world p inv >> delete_of world p invitee domain_id))
            w).1
  delete_if invitee domain_id true w one = deleted-One world p domain_id (invitee ∷ []) w one
  delete_if invitee domain_id false w one =
      delete_found invitee domain_id (repo.retrieve_invitation invitee domain_id w) w one

  delete_invitation-OneAnswer :
      (session : Session) (invitee domain_id : String) (w : W)
      → One w
      → One (delete_invitation world p session invitee domain_id w).1
  unfolding delete_invitation
  delete_invitation-OneAnswer session invitee domain_id w one =
      delete_if invitee domain_id (session.user_id == invitee) w one

  -- No sequence of calls that send, accept, reject and delete invitations leaves one that is both
  -- confirmed and rejected where there was none, whatever the calls return and whatever time it is.
  pub run-OneAnswer :
      (calls : List Call) (w : W) → OneAnswer world p w → OneAnswer world p (run calls w)
  unfolding run
  run-OneAnswer [] w one = one
  run-OneAnswer (send session inv ∷ calls) w one =
      run-OneAnswer calls _ (send_invitation-OneAnswer session inv w one)
  run-OneAnswer (accept session domain_id ∷ calls) w one =
      run-OneAnswer calls _ (accept_invitation-OneAnswer world p session domain_id w one)
  run-OneAnswer (reject session domain_id ∷ calls) w one =
      run-OneAnswer calls _ (reject_invitation-OneAnswer world p session domain_id w one)
  run-OneAnswer (delete session invitee domain_id ∷ calls) w one =
      run-OneAnswer calls _ (delete_invitation-OneAnswer session invitee domain_id w one)

-- ===== src/Domains/Manage.antt =====
-- The domains themselves in domains/service.go, and the operations on roles that it overrides.
use text.Mathlib.Text.{◌==◌}
use supermq.Common.{
  ℕ, String, Bool, true, false, not, none, some, List, [], ◌∷◌, if◌then◌else◌, leb, length,
}
use supermq.Errors.{Err, new, Result, ok, err}
use supermq.Service.{
  Action, ◌>>=◌, ◌>>◌, pure, fail_if, read, or_wrap, undoing, create_entity, remove_entity,
  view_entity, update_entity, invalid_status, rollback_repo_error, save_error,
}
use supermq.Policies.{Policy, no_policy}
use supermq.Roles.Data.{Role, RoleProvision, Session, Provisioner}
use supermq.Roles.Policy.{built_in_role_actions}
use supermq.Roles.Manage.{
  entity_role, remove_entity_members, role_remove_members, role_remove_all_members,
}
use supermq.Roles.Provision.{add_new_entities_roles}
use supermq.Domains.Data.{Domain, DomainReq, Status, enabled, disabled, freezed, DomainWorld}

abbrev pub create_domain_policy : Err
create_domain_policy = new none "failed to create domain policy"

abbrev pub retain_one_member : Err
retain_one_member = new none "must retain at least one member"

-- The statuses that a new domain may have.
abbrev pub creatable : Status → Bool
creatable Status.enabled = true
creatable Status.disabled = true
creatable _ = false

-- The policy that the platform is the domain's organization.
abbrev pub organization : String → Policy
organization id = record no_policy {
  subject = "supermq";
  subject_type = "platform";
  relation = "organization";
  object = id;
  object_type = "domain";
}

-- The role has the name of a built-in one.
abbrev pub is_built_in : Provisioner → Role → Bool
is_built_in p ro = elim (built_in_role_actions p.built_in_roles ro.name) [
  | some _ ↦ true
  | none ↦ false
]

abbrev pub status_req : Session → Status → ℕ → DomainReq
status_req session status time = record {
  name = none;
  metadata = none;
  tags = none;
  status = some status;
  updated_by = some session.user_id;
  updated_at = some time;
}

module _ {W : Type 0} (world : DomainWorld W) (p : Provisioner) where
  open world use {roles, repo, new_id, remove_status}

  -- The ID of a domain that has none.
  abbrev pub domain_id_of : Domain → Action W String
  domain_id_of d = if d.id == "" then or_wrap create_entity new_id else pure d.id

  abbrev pub save : Domain → Action W Domain
  save d w = let (r, w') = repo.save_domain d w in (save_error r, w')

  -- CreateDomain once the domain is saved.
  abbrev pub provision_domain : Session → Domain → Domain → Action W (Domain × List RoleProvision)
  provision_domain session d dom = undoing (repo.delete_domain d.id) rollback_repo_error (
      or_wrap create_domain_policy (
        add_new_entities_roles roles p d.id session.user_id (d.id ∷ []) (organization d.id ∷ [])
          (("admin", session.user_id ∷ []) ∷ []))
      >>= λ rps. pure (dom, rps))

  -- CreateDomain once the domain has an ID.
  abbrev pub create_with : Session → Domain → String → Action W (Domain × List RoleProvision)
  create_with session d id = fail_if (not (creatable d.status)) invalid_status >> λ w.
      let d' = record d { id = id; created_by = session.user_id; created_at = roles.now w } in
      (save d' >>= provision_domain session d') w

  -- CreateDomain
  unfoldable pub create_domain : Session → Domain → Action W (Domain × List RoleProvision)
  create_domain session d = domain_id_of d >>= create_with session d

  -- RetrieveDomain
  unfoldable pub retrieve_domain : Session → String → Bool → Action W Domain
  retrieve_domain session id with_roles = or_wrap view_entity (
      read (
        if session.super_admin
        then repo.retrieve_domain id
        else if with_roles
        then repo.retrieve_domain_with_roles id session.user_id
        else repo.retrieve_domain id))

  -- UpdateDomain
  unfoldable pub update_domain : Session → String → DomainReq → Action W Domain
  update_domain session id d w =
      or_wrap update_entity
        (repo.update_domain id
          (record d { updated_at = some (roles.now w); updated_by = some session.user_id }))
        w

  -- EnableDomain, DisableDomain and FreezeDomain, which differ in the status.
  unfoldable pub change_status : Status → Session → String → Action W Domain
  change_status status session id w =
      (or_wrap update_entity (repo.update_domain id (status_req session status (roles.now w)))
          >>= λ dom. or_wrap remove_entity (remove_status id) >> pure dom)
        w

  unfoldable pub enable_domain : Session → String → Action W Domain
  unfolding change_status
  enable_domain = change_status enabled

  unfoldable pub disable_domain : Session → String → Action W Domain
  unfolding change_status
  disable_domain = change_status disabled

  unfoldable pub freeze_domain : Session → String → Action W Domain
  unfolding change_status
  freeze_domain = change_status freezed

  -- `if err := svc.repo.DeleteUsersInvitations(…); err != nil && err != repoerr.ErrNotFound`
  abbrev pub forgive_not_found : Result (Unit {0}) → Result (Unit {0})
  forgive_not_found (ok u) = ok u
  forgive_not_found (err e) = if repo.is_not_found e then ok tt else err e

  abbrev pub drop_invitations : String → List String → Action W (Unit {0})
  drop_invitations entity_id members w =
      let (r, w') = repo.delete_invitations entity_id members w in (forgive_not_found r, w')

  -- RemoveEntityMembers
  unfoldable pub domain_remove_entity_members : String → List String → Action W (Unit {0})
  domain_remove_entity_members entity_id members =
      drop_invitations entity_id members >> remove_entity_members roles p entity_id members

  -- The check that a built-in role keeps a member.
  abbrev pub check_retained : Role → List String → Action W (Unit {0})
  check_retained ro members =
      if is_built_in p ro
      then (or_wrap view_entity (read (roles.repo.list_members ro.id 0 0)) >>= λ page.
          fail_if (leb page.total (length members)) retain_one_member)
      else pure tt

  -- RoleRemoveMembers
  unfoldable pub domain_role_remove_members :
      Session → String → String → List String → Action W (Unit {0})
  domain_role_remove_members session entity_id role_id members =
      entity_role roles p view_entity entity_id role_id >>= λ ro.
      check_retained ro members
      >> (drop_invitations entity_id members
          >> role_remove_members roles p session entity_id role_id members)

  -- RoleRemoveAllMembers
  unfoldable pub domain_role_remove_all_members : Session → String → String → Action W (Unit {0})
  domain_role_remove_all_members session entity_id role_id =
      entity_role roles p view_entity entity_id role_id >>= λ ro.
      fail_if (is_built_in p ro) retain_one_member
      >> role_remove_all_members roles p session entity_id role_id

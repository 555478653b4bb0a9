-- ===== src/Domains/Creating.antt =====
-- CreateDomain of domains/service.go: what an error leaves of the domain.
use text.Mathlib.Text.{◌==◌}
use supermq.Common.{
  ◌≡◌, refl, sym, ap, ◌∙◌, ◌⊎◌, inl, inr, Bool, true, false, not, String, List, [], ◌∷◌,
  if◌then◌else◌,
}
use supermq.Errors.{Err, Result, ok, err}
use supermq.Service.{
  Action, ◌>>=◌, ◌>>◌, pure, fail_if, or_wrap, undoing, after_rollback, create_entity,
  invalid_status, rollback_repo_error, save_error,
}
use supermq.Service.Laws.{Ends}
use supermq.Policies.Atomic.{RollbackFailed}
use supermq.Roles.Data.{RoleProvision, Session, Provisioner}
use supermq.Roles.Provision.{add_new_entities_roles}
use supermq.Domains.Data.{Domain, DomainWorld}
use supermq.Domains.Manage.{
  create_domain_policy, organization, creatable, domain_id_of, save, provision_domain, create_with,
  create_domain,
}

module _ {W : Type 0} (world : DomainWorld W) (p : Provisioner) where
  open world use {roles, repo, new_id}

  -- An error leaves the domains as they were, or without the new one, or says that the new one
  -- could not be deleted.
  abbrev pub Cleared : String → Err → W → W → Type 0
  Cleared id e w w' =
      ((other : String) → repo.known w' other ≡ repo.known w other)
      ⊎ ((repo.known w' id ≡ false) ⊎ RollbackFailed rollback_repo_error e)

  abbrev pub Created : {A : Type 0} → String → W → Result A × W → Type 0
  Created id w = Ends (λ _ _. Unit) (λ e w'. Cleared id e w w')

  undone :
      (A : Type 0) (id : String) (e : Err) (u : Result (Unit {0}) × W) (w w1 : W)
      → u ≡ repo.delete_domain id w1
      → Created {A = A} id w (after_rollback e rollback_repo_error u.0, u.1)
  undone A id e (ok _, w2) w w1 same = inr (
      inl (ap (λ z. repo.known z.1 id) same ∙ repo.delete_forgets id w1 (ap (λ z. z.0) (sym same))))
  undone A id e (err cause, w2) w w1 same = inr (inr (e, cause, refl))

  provisioned :
      (A : Type 0) (id : String) (end : Result A × W) (w w1 : W)
      → Created id w (undoing (repo.delete_domain id) rollback_repo_error (λ _. end) w1)
  provisioned A id (ok a, w2) w w1 = tt
  provisioned A id (err e, w2) w w1 = undone A id e (repo.delete_domain id w2) w w2 refl

  saved :
      (session : Session) (d : Domain) (end : Result Domain × W) (w w1 : W)
      → end ≡ repo.save_domain d w1
      → ((other : String) → repo.known w1 other ≡ repo.known w other)
      → Created d.id w
          (((λ _. (save_error end.0, end.1)) >>= provision_domain world p session d) w1)
  saved session d (ok dom, w2) w w1 same kept =
      provisioned (Domain × List RoleProvision) d.id
        ((or_wrap create_domain_policy (
              add_new_entities_roles roles p d.id session.user_id (d.id ∷ [])
                (organization d.id ∷ []) (("admin", session.user_id ∷ []) ∷ []))
            >>= λ rps. pure (dom, rps))
          w2)
        w w2
  saved session d (err e, w2) w w1 same kept = inl (λ other.
      ap (λ z. repo.known z.1 other) same
      ∙ repo.save_fails d w1 e other (ap (λ z. z.0) (sym same))
      ∙ kept other)

  status_checked :
      (test : Bool) (id : String) (m : Action W (Domain × List RoleProvision)) (w w1 : W)
      → ((other : String) → repo.known w1 other ≡ repo.known w other)
      → Created id w (m w1)
      → Created id w ((fail_if test invalid_status >> m) w1)
  status_checked true id m w w1 kept h = inl kept
  status_checked false id m w w1 kept h = h

  -- The ID that the domain gets.
  abbrev pub chosen : Result String → String
  chosen (ok id) = id
  chosen (err _) = ""

  identified :
      (session : Session) (d : Domain) (end : Result String × W) (w : W)
      → ((other : String) → repo.known end.1 other ≡ repo.known w other)
      → Created (chosen end.0) w (((λ _. end) >>= create_with world p session d) w)
  identified session d (err _, w1) w kept = inl kept
  identified session d (ok id, w1) w kept =
      let d' = record d { id = id; created_by = session.user_id; created_at = roles.now w1 } in
      status_checked (not (creatable d.status)) id
        (λ w2.
          let d2 = record d { id = id; created_by = session.user_id; created_at = roles.now w2 } in
          (save world p d2 >>= provision_domain world p session d2) w2)
        w w1 kept (saved session d' (repo.save_domain d' w1) w w1 refl kept)

  id_known :
      (test : Bool) (d : Domain) (w : W) (other : String)
      → repo.known ((if test then or_wrap create_entity new_id else pure d.id) w).1 other
        ≡ repo.known w other
  id_known true d w other = world.id_keeps w other
  id_known false d w other = refl

  -- CreateDomain that ends in an error leaves the domains as they were, or no domain of the ID
  -- that it chose, or its error says that the domain could not be deleted.
  pub create_domain-Created :
      (session : Session) (d : Domain) (w : W)
      → Created (chosen (domain_id_of world p d w).0) w (create_domain world p session d w)
  unfolding create_domain
  create_domain-Created session d w =
      identified session d (domain_id_of world p d w) w (id_known (d.id == "") d w)

-- ===== src/Domains/Pending.antt =====
-- The steps in which AcceptInvitation and RejectInvitation of domains/service.go change nothing.
use text.Mathlib.Text.{◌==◌}
use supermq.Common.{◌≡◌, refl, ◌∙◌, ℕ, zero, suc, Bool, true, false, String, if◌then◌else◌}
use supermq.Errors.{Err, Result, ok, err}
use supermq.Service.{Action, ◌>>=◌, ◌>>◌, pure, fail_if, read, or_wrap, view_entity}
use supermq.Service.Laws.{Ends}
use supermq.Roles.Data.{Role, Provisioner}
use supermq.Domains.Data.{Invitation, Domain, DomainWorld}
use supermq.Domains.Invite.{is_set, populate_domain, populate_role, populate_details}

pub is_set-zero : (n : ℕ) → is_set n ≡ false → n ≡ 0
is_set-zero zero h = refl
is_set-zero (suc n) h = cc

-- What the names of an invitation leave of it.
pub record Named (inv named : Invitation) : Type 0 where
  pub invitee : named.invitee_user_id ≡ inv.invitee_user_id
  pub domain : named.domain_id ≡ inv.domain_id
  pub role : named.role_id ≡ inv.role_id

module _ {W : Type 0} (world : DomainWorld W) (p : Provisioner) where
  open world use {repo}

  -- Three checks before the rest: an error leaves the world, and the rest runs if all are passed.
  pub checked :
      {A : Type 0} (I : W → Type 0) (a b c : Bool) (e1 e2 e3 : Err) (m : Action W A) (w : W)
      → I w
      → (b ≡ false → c ≡ false → I (m w).1)
      → I (((fail_if a e1 >> (fail_if b e2 >> fail_if c e3)) >> m) w).1
  checked I true b c e1 e2 e3 m w h k = h
  checked I false true c e1 e2 e3 m w h k = h
  checked I false false true e1 e2 e3 m w h k = h
  checked I false false false e1 e2 e3 m w h k = k refl refl

  -- The names are read, so that the world is as it was, and only they are set.
  abbrev pub Populated : Invitation → W → Result Invitation × W → Type 0
  Populated inv w = Ends (λ named w'. (w' ≡ w) × Named inv named) (λ _ w'. w' ≡ w)

  domain_read :
      (inv : Invitation) (found : Result Domain) (w : W)
      → Populated inv w (
          (or_wrap view_entity (read (λ _. found)) >>= λ domain.
          pure (record inv { domain_name = domain.name }))
            w)
  domain_read inv (ok domain) w = (refl, record { invitee = refl; domain = refl; role = refl })
  domain_read inv (err _) w = refl

  role_read :
      (inv : Invitation) (found : Result Role) (w : W)
      → Populated inv w (
          (or_wrap view_entity (read (λ _. found)) >>= λ role.
          pure (record inv { role_name = role.name }))
            w)
  role_read inv (ok role) w = (refl, record { invitee = refl; domain = refl; role = refl })
  role_read inv (err _) w = refl

  populate_if :
      (inv : Invitation) (test : Bool) (m : Action W Invitation) (w : W)
      → Populated inv w (m w)
      → Populated inv w ((if test then m else pure inv) w)
  populate_if inv true m w h = h
  populate_if inv false m w h = (refl, record { invitee = refl; domain = refl; role = refl })

  populate_domain-Populated :
      (domain_id : String) (inv : Invitation) (w : W)
      → Populated inv w (populate_domain world p domain_id inv w)
  populate_domain-Populated domain_id inv w =
      populate_if inv (inv.domain_name == "")
        (or_wrap view_entity (read (repo.retrieve_domain domain_id)) >>= λ domain.
          pure (record inv { domain_name = domain.name }))
        w (domain_read inv (repo.retrieve_domain domain_id w) w)

  populate_role-Populated :
      (inv : Invitation) (w : W) → Populated inv w (populate_role world p inv w)
  populate_role-Populated inv w =
      populate_if inv (inv.role_name == "")
        (or_wrap view_entity (read (repo.retrieve_role inv.role_id)) >>= λ role.
          pure (record inv { role_name = role.name }))
        w (role_read inv (repo.retrieve_role inv.role_id w) w)

  then_role :
      (inv : Invitation) (end : Result Invitation × W) (w : W)
      → Populated inv w end
      → Populated inv w (((λ _. end) >>= populate_role world p) w)
  then_role inv (err _, w1) w h = h
  then_role inv (ok named, w1) w (same, n) =
      joined (populate_role world p named w1) (populate_role-Populated named w1)
    where
      joined : (end : Result Invitation × W) → Populated named w1 end → Populated inv w end
      joined (err _, w2) h = h ∙ same
      joined (ok named2, w2) (h, n2) = (
        h ∙ same,
        record {
          invitee = n2.invitee ∙ n.invitee;
          domain = n2.domain ∙ n.domain;
          role = n2.role ∙ n.role;
        },
      )

  pub populate_details-Populated :
      (domain_id : String) (inv : Invitation) (w : W)
      → Populated inv w (populate_details world p domain_id inv w)
  populate_details-Populated domain_id inv w =
      then_role inv (populate_domain world p domain_id inv w) w
        (populate_domain-Populated domain_id inv w)

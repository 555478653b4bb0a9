-- ===== src/Domains/Accepting.antt =====
-- What AcceptInvitation of domains/service.go does to the policies, and to whom it is refused.
use text.Mathlib.Text.{◌==◌}
use supermq.Common.{
  ◌≡◌, refl, sym, ap, ◌∙◌, subst, ◌⊎◌, inl, inr, Bool, true, false, not, ◌||◌, String, List, [],
  ◌∷◌,
}
use supermq.Errors.{Result, ok, err}
use supermq.Service.{Action, ◌>>=◌, ◌>>◌, pure, fail_if, read, or_wrap, view_entity, update_entity}
use supermq.Service.Laws.{Ends, Ends-weaken}
use supermq.Policies.Atomic.{Unchanged, Added, AllOrNothing}
use supermq.Roles.Data.{Role, Session, Provisioner}
use supermq.Roles.Policy.{member_policies}
use supermq.Roles.Manage.{rollback_roles_error, grant_members, role_add_members}
use supermq.Roles.Adding.{found_members}
use supermq.Domains.Data.{Invitation, DomainWorld}
use supermq.Domains.Invite.{
  authorization, already_accepted, already_rejected, is_set, confirmed, check_pending,
  populate_details, confirm, admit, accept_found, accept_invitation, reject_invitation, refuse,
}
use supermq.Domains.Pending.{Named, populate_details-Populated}

module _ {W : Type 0} (world : DomainWorld W) (p : Provisioner) (session : Session)
    (domain_id : String) where
  open world use {roles, repo}

  -- The user has come to the members of a role, and nothing else has changed.
  abbrev Enlisted : Result Role → W → W → Type 0
  Enlisted found w w' =
      (ro : Role) × (found ≡ ok ro)
      × Added roles.policy (member_policies domain_id ro.id (session.user_id ∷ [])) w w'

  -- How a call that enlists the user ends.
  abbrev Enlists : {A : Type 0} → Result Role → W → Result A × W → Type 0
  Enlists found w =
      Ends (λ _ w'. Enlisted found w w') (λ _ w'. Unchanged roles.policy w w' ⊎ Enlisted found w w')

  -- The user has come to the members of the role that the invitation names, and nothing else has
  -- changed.
  abbrev pub Joined : W → W → Type 0
  Joined w w' =
      (inv : Invitation) × (ro : Role) × (repo.retrieve_invitation session.user_id domain_id w
        ≡ ok inv)
      × (roles.repo.retrieve_entity_role domain_id inv.role_id w ≡ ok ro)
      × Added roles.policy (member_policies domain_id ro.id (session.user_id ∷ [])) w w'

  abbrev pub Admitted : {A : Type 0} → W → Result A × W → Type 0
  Admitted w = Ends (λ _ w'. Joined w w') (λ _ w'. Unchanged roles.policy w w' ⊎ Joined w w')

  confirmed_end :
      (inv : Invitation) (found : Result Role) (w w1 : W) (end : Result (Unit {0}) × W)
      → Enlisted found w w1
      → Unchanged roles.policy w1 end.1
      → Enlists found w (((or_wrap update_entity (λ _. end)) >> pure inv) w1)
  confirmed_end inv found w w1 (ok _, w2) (ro, e, added) kept = (ro, e, λ r. kept r ∙ added r)
  confirmed_end inv found w w1 (err _, w2) (ro, e, added) kept = inr (ro, e, λ r. kept r ∙ added r)

  joined_end :
      (inv : Invitation) (ro : Role) (w : W) (end : Result (List String) × W)
      → AllOrNothing roles.policy rollback_roles_error
          (member_policies domain_id ro.id (session.user_id ∷ []))
          w
          end
      → Enlists (ok ro) w ((or_wrap update_entity (λ _. end) >> confirm world p inv) w)
  joined_end inv ro w (err _, w1) (inl same) = inl same
  joined_end inv ro w (err _, w1) (inr (failed, added)) = inr (ro, refl, added)
  joined_end inv ro w (ok _, w1) (fresh, added) =
      confirmed_end (confirmed inv (roles.now w1)) (ok ro) w w1
        (repo.update_confirmation (confirmed inv (roles.now w1)) w1) (ro, refl, added)
        (world.confirmation_keeps (confirmed inv (roles.now w1)) w1)

  role_found :
      (inv : Invitation) (found : Result Role) (w : W)
      → Enlists found w (
          (or_wrap update_entity (
                or_wrap update_entity (read (λ _. found))
                >>= grant_members roles p
                    (record session { domain_id = domain_id })
                    (session.user_id ∷ []))
              >> confirm world p inv)
            w)
  role_found inv (err _) w = inl (λ r. refl)
  role_found inv (ok ro) w =
      joined_end inv ro w
        ((or_wrap update_entity (read (λ _. ok ro))
            >>= grant_members roles p (record session { domain_id = domain_id })
                (session.user_id ∷ []))
          w)
        (found_members roles p (record session { domain_id = domain_id }) (session.user_id ∷ [])
          (ok ro) w)

  admit-Enlists :
      (inv : Invitation) (w : W)
      → Enlists
          (roles.repo.retrieve_entity_role domain_id inv.role_id w)
          w
          (admit world p session domain_id inv w)
  unfolding role_add_members
  admit-Enlists inv w = role_found inv (roles.repo.retrieve_entity_role domain_id inv.role_id w) w

  admit-Admitted :
      (inv named : Invitation) (w : W)
      → repo.retrieve_invitation session.user_id domain_id w ≡ ok inv
      → named.role_id ≡ inv.role_id
      → Admitted w (admit world p session domain_id named w)
  admit-Admitted inv named w stored same =
      Ends-weaken (λ _ w'. Enlisted found w w') (λ _ w'. Joined w w')
        (λ _ w'. Unchanged roles.policy w w' ⊎ Enlisted found w w')
        (λ _ w'. Unchanged roles.policy w w' ⊎ Joined w w')
        (admit world p session domain_id named w) (admit-Enlists named w) (λ _ w'. join w')
        (λ _ w' h. elim h [ inl u ↦ inl u | inr j ↦ inr (join w' j) ])
    where
      found : Result Role
      found = roles.repo.retrieve_entity_role domain_id named.role_id w

      join : (w' : W) → Enlisted found w w' → Joined w w'
      join w' (ro, e, added) = (
        inv,
        ro,
        stored,
        ap (λ id. roles.repo.retrieve_entity_role domain_id id w) (sym same) ∙ e,
        added,
      )

  populated_end :
      (inv : Invitation) (end : Result Invitation × W) (w : W)
      → repo.retrieve_invitation session.user_id domain_id w ≡ ok inv
      → Ends (λ named w'. (w' ≡ w) × Named inv named) (λ _ w'. w' ≡ w) end
      → Admitted w (((λ _. end) >>= admit world p session domain_id) w)
  populated_end inv (err _, w1) w stored same = inl (λ r. ap (λ z. roles.policy.holds z r) same)
  populated_end inv (ok named, w1) w stored (same, n) =
      subst (λ z. Admitted w (admit world p session domain_id named z)) (sym same)
        (admit-Admitted inv named w stored n.role)

  pending_end :
      (a b c : Bool) (m : Action W Invitation) (w : W)
      → Admitted w (m w)
      → Admitted w (
          ((fail_if a authorization >> (fail_if b already_accepted >> fail_if c already_rejected))
              >> m)
            w)
  pending_end true b c m w h = inl (λ r. refl)
  pending_end false true c m w h = inl (λ r. refl)
  pending_end false false true m w h = inl (λ r. refl)
  pending_end false false false m w h = h

  found_end :
      (found : Result Invitation) (w : W)
      → repo.retrieve_invitation session.user_id domain_id w ≡ found
      → Admitted w
          ((or_wrap view_entity (read (λ _. found)) >>= accept_found world p session domain_id) w)
  found_end (err _) w stored = inl (λ r. refl)
  found_end (ok inv) w stored =
      pending_end (not (inv.invitee_user_id == session.user_id)) (is_set inv.confirmed_at)
        (is_set inv.rejected_at)
        (populate_details world p domain_id inv >>= admit world p session domain_id) w
        (populated_end inv (populate_details world p domain_id inv w) w stored
          (populate_details-Populated world p domain_id inv w))

  -- AcceptInvitation, without an error, makes the user a member of the role that the stored
  -- invitation names, as the repository has it for the domain, and changes no other policy. With an
  -- error it changes no policy, or the user is a member of that role all the same: the membership
  -- is not taken back when the confirmation cannot be stored.
  pub accept_invitation-Admitted :
      (w : W) → Admitted w (accept_invitation world p session domain_id w)
  unfolding accept_invitation
  accept_invitation-Admitted w =
      found_end (repo.retrieve_invitation session.user_id domain_id w) w refl

  -- An error, and the world is as it was.
  abbrev pub Refused : {A : Type 0} → W → Result A × W → Type 0
  Refused w = Ends (λ _ _. ⊥) (λ _ w'. w' ≡ w)

  answered_end :
      (a b c : Bool) (m : Action W Invitation) (w : W)
      → (b || c) ≡ true
      → Refused w (
          ((fail_if a authorization >> (fail_if b already_accepted >> fail_if c already_rejected))
              >> m)
            w)
  answered_end true b c m w h = refl
  answered_end false true c m w h = refl
  answered_end false false true m w h = refl
  answered_end false false false m w h = cc

  answered_found :
      (found : Result Invitation) (inv : Invitation) (m : Invitation → Action W Invitation) (w : W)
      → found ≡ ok inv
      → (is_set inv.confirmed_at || is_set inv.rejected_at) ≡ true
      → Refused w (
          (or_wrap view_entity (read (λ _. found)) >>= λ i. check_pending world p session i >> m i)
            w)
  answered_found (err _) inv m w e h = refl
  answered_found (ok i) inv m w e h =
      answered_end (not (i.invitee_user_id == session.user_id)) (is_set i.confirmed_at)
        (is_set i.rejected_at) (m i) w (ap (λ r. answered r) e ∙ h)
    where
      answered : Result Invitation → Bool
      answered (ok j) = is_set j.confirmed_at || is_set j.rejected_at
      answered (err _) = true

  -- An invitation that is answered, confirmed or rejected, can neither be accepted nor rejected
  -- any more: both calls end in an error and change nothing.
  pub answered-Refused :
      (inv : Invitation) (w : W)
      → repo.retrieve_invitation session.user_id domain_id w ≡ ok inv
      → (is_set inv.confirmed_at || is_set inv.rejected_at) ≡ true
      → Refused w (accept_invitation world p session domain_id w)
        × Refused w (reject_invitation world p session domain_id w)
  unfolding accept_invitation reject_invitation
  answered-Refused inv w e h = (
    answered_found (repo.retrieve_invitation session.user_id domain_id w) inv
        (λ i. populate_details world p domain_id i >>= admit world p session domain_id) w e h,
    answered_found (repo.retrieve_invitation session.user_id domain_id w) inv
        (λ i. populate_details world p domain_id i >>= refuse world p) w e h,
  )

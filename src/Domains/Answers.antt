-- ===== src/Domains/Answers.antt =====
-- Runs of the invitation calls of domains/service.go: rejecting, sending, deleting, and any
-- sequence of calls.
use text.Mathlib.Text.{◌==◌}
use supermq.Common.{
  ◌≡◌, refl, sym, ap, ◌∙◌, subst, ◌⊎◌, inl, inr, Bool, true, false, not, some, String, List,
  if◌then◌else◌,
}
use supermq.Errors.{Result, ok, err}
use supermq.Service.{Action, ◌>>=◌, ◌>>◌, pure, fail_if, read, or_wrap, view_entity, update_entity}
use supermq.Service.Laws.{>>=-after, Ends}
use supermq.Roles.Data.{Session, Provisioner}
use supermq.Domains.Data.{Invitation, DomainWorld}
use supermq.Domains.Invite.{
  authorization, already_accepted, already_rejected, is_set, rejected, populate_details, refuse,
  reject_found, reject_invitation, reset_rejection,
}
use supermq.Domains.Pending.{is_set-zero, Named, checked, populate_details-Populated}
use supermq.Domains.Invariant.{OneAnswer, some_eq}

module _ {W : Type 0} (world : DomainWorld W) (p : Provisioner) where
  open world use {roles, repo}

  abbrev One : W → Type 0
  One = OneAnswer world p

  -- Rejecting an invitation that is not confirmed, or taking a rejection back.
  reject-One :
      (inv : Invitation) (w : W)
      → One w
      → ((old : Invitation)
          → repo.stored w inv.invitee_user_id inv.domain_id ≡ some old
          → (old.confirmed_at ≡ 0) ⊎ (inv.rejected_at ≡ 0))
      → One (repo.update_rejection inv w).1
  reject-One inv w one open_for user domain new e = elim (repo.rejects inv w user domain) [
    | inl same ↦ one user domain new (sym same ∙ e)
    | inr (old, was, u, d, now) ↦
        let is_new = some_eq world p new _ (sym e ∙ now) in
        elim (open_for old (
          ap (λ v. repo.stored w v inv.domain_id) (sym u)
          ∙ ap (λ v. repo.stored w user v) (sym d)
          ∙ was)) [
            | inl c ↦ inl (ap (λ i. i.confirmed_at) is_new ∙ c)
            | inr r ↦ inr (ap (λ i. i.rejected_at) is_new ∙ r)
          ]
  ]

  pub updated-One :
      (inv : Invitation) (m : Action W (Unit {0})) (w : W) → One (m w).1 → One ((m >> pure inv) w).1
  updated-One inv m w h =
      >>=-after One (m w) (λ _. pure inv) w h (λ _ w1 e. subst (λ z. One z.1) e h)

  populated_reject :
      (inv : Invitation) (end : Result Invitation × W) (w : W)
      → Ends (λ named w'. (w' ≡ w) × Named inv named) (λ _ w'. w' ≡ w) end
      → One w
      → ((old : Invitation)
          → repo.stored w inv.invitee_user_id inv.domain_id ≡ some old
          → old.confirmed_at ≡ 0)
      → One (((λ _. end) >>= refuse world p) w).1
  populated_reject inv (err _, w1) w same one open_for = subst One (sym same) one
  populated_reject inv (ok named, w1) w (same, n) one open_for =
      updated-One (rejected named (roles.now w1))
        (or_wrap update_entity (repo.update_rejection (rejected named (roles.now w1)))) w1
        (reject-One (rejected named (roles.now w1)) w1 (subst One (sym same) one) (λ old was. inl (
          open_for old (
            ap (λ z. repo.stored z inv.invitee_user_id inv.domain_id) (sym same)
            ∙ ap (λ u. repo.stored w1 u inv.domain_id) (sym n.invitee)
            ∙ ap (λ d. repo.stored w1 named.invitee_user_id d) (sym n.domain)
            ∙ was))))

  found_reject :
      (session : Session) (domain_id : String) (found : Result Invitation) (w : W)
      → found ≡ repo.retrieve_invitation session.user_id domain_id w
      → One w
      → One
          ((or_wrap view_entity (read (λ _. found)) >>= reject_found world p session domain_id) w).1
  found_reject session domain_id (err _) w e one = one
  found_reject session domain_id (ok inv) w e one =
      let was = repo.retrieves session.user_id domain_id w inv (sym e) in
      let (u, d) = repo.keyed session.user_id domain_id w inv was in
      checked world p One (not (inv.invitee_user_id == session.user_id)) (is_set inv.confirmed_at)
        (is_set inv.rejected_at) authorization already_accepted already_rejected
        (populate_details world p domain_id inv >>= refuse world p) w one
        (λ confirmed_zero _.
          populated_reject inv (populate_details world p domain_id inv w) w
            (populate_details-Populated world p domain_id inv w) one
            (λ old same.
              ap (λ i. i.confirmed_at)
                (some_eq world p old inv (
                  sym same
                  ∙ ap (λ v. repo.stored w v inv.domain_id) u
                  ∙ ap (λ v. repo.stored w session.user_id v) d
                  ∙ was))
              ∙ is_set-zero inv.confirmed_at confirmed_zero))

  pub reject_invitation-OneAnswer :
      (session : Session) (domain_id : String) (w : W)
      → One w
      → One (reject_invitation world p session domain_id w).1
  unfolding reject_invitation
  reject_invitation-OneAnswer session domain_id w one =
      found_reject session domain_id (repo.retrieve_invitation session.user_id domain_id w) w refl
        one

  pub saved-One : (inv : Invitation) (w : W) → One w → One (repo.save_invitation inv w).1
  saved-One inv w one user domain new e = elim (repo.saves inv w user domain) [
    | inl same ↦ one user domain new (sym same ∙ e)
    | inr now ↦ inl (ap (λ i. i.confirmed_at) (some_eq world p new _ (sym e ∙ now)))
  ]

  pub deleted-One :
      (domain_id : String) (users : List String) (w : W)
      → One w
      → One (repo.delete_invitations domain_id users w).1
  deleted-One domain_id users w one user domain new e =
      elim (repo.deletes domain_id users w user domain) [
        | inl same ↦ one user domain new (sym same ∙ e)
        | inr gone ↦ cc
      ]

  reset-One :
      (invitation inv : Invitation) (w : W)
      → One w
      → One (reset_rejection world p invitation inv w).1
  reset-One invitation inv w one = by_test (is_set inv.rejected_at)
    where
      by_test :
          (test : Bool)
          → One
              (if test
                then or_wrap update_entity
                    (repo.update_rejection
                      (record invitation { rejected_at = 0; updated_at = roles.now w }))
                    w
                else (ok tt, w)).1
      by_test true =
          reject-One (record invitation { rejected_at = 0; updated_at = roles.now w }) w one
            (λ old was. inr refl)
      by_test false = one

  pub resent-One :
      (invitation : Invitation) (found : Result Invitation) (w : W)
      → One w
      → One
          ((or_wrap view_entity (read (λ _. found)) >>= λ inv.
              fail_if (is_set inv.confirmed_at) already_accepted
              >> reset_rejection world p invitation inv)
            w).1
  resent-One invitation (err _) w one = one
  resent-One invitation (ok inv) w one = by_test (is_set inv.confirmed_at)
    where
      by_test :
          (test : Bool)
          → One ((fail_if test already_accepted >> reset_rejection world p invitation inv) w).1
      by_test true = one
      by_test false = reset-One invitation inv w one

-- ===== src/Channels/Unsetting.antt =====
-- RemoveParentGroup of channels/service.go keeps the parent group in step.
use text.Mathlib.Text.{◌==◌}
use text.Mathlib.TextEquality.{eq_iff}
use supermq.Common.{
  String, ◌≡◌, refl, sym, ap, ◌∙◌, Bool, true, false, not, ◌&&◌, ◌||◌, inl, inr, List, [], ◌∷◌,
  if◌then◌else◌,
}
use supermq.Errors.{Err, Result, ok, err}
use supermq.Service.{
  ◌>>=◌, ◌>>◌, read, or_wrap, undoing, after_rollback, update_entity, delete_policies_error,
  rollback_tx_error, pure,
}
use supermq.Policies.{Policy, same, listed}
use supermq.Policies.Atomic.{Deleted}
use supermq.Roles.Data.{Session}
use supermq.Channels.Data.{Channel, no_channel, ChannelWorld}
use supermq.Channels.Parents.{parent_policy, clear_parent, remove_parent_group}
use supermq.Channels.InStep.{
  parent_of, not_empty, put_back, taken_away, InStep, Settles, held_then, kept-InStep,
}

module _ {W : Type 0} (world : ChannelWorld W) (session : Session) (id group : String) where
  open world use {roles, repo}

  abbrev prs : List Policy
  prs = parent_policy session.domain_id group id ∷ []

  abbrev cleared : W → Channel
  cleared w = record no_channel { id = id; updated_by = session.user_id; updated_at = roles.now w }

  -- The rollback of RemoveParentGroup.
  clear_undone :
      (w w2 : W) (e : Err) (end : Result (Unit {0}) × W)
      → InStep world session id w
      → repo.parent w id ≡ group
      → Deleted roles.policy prs w w2
      → repo.parent w2 id ≡ group
      → end ≡ roles.policy.add prs w2
      → Settles world session id "" (after_rollback e rollback_tx_error end.0, end.1)
  clear_undone w w2 e (err cause, w3) step at gone still same = inr (e, cause, refl)
  clear_undone w w2 e (ok _, w3) step at gone still same = inl (λ h ne.
      ap (λ z. roles.policy.holds z.1 (parent_of h id)) same
      ∙ roles.policy.add_adds prs w2 (parent_of h id) (ap (λ z. z.0) (sym same))
      ∙ ap (λ b. listed prs (parent_of h id) || b) (gone (parent_of h id))
      ∙ held_then world session id w group (λ l b. l || (not l && b)) h group step at ne
      ∙ put_back (group == h)
      ∙ ap (λ p. p == h)
          (sym (ap (λ z. repo.parent z.1 id) same ∙ world.add_keeps_parents prs w2 id ∙ still)))

  clear_ended :
      (w w1 : W) (end : Result (Unit {0}) × W)
      → InStep world session id w
      → repo.parent w id ≡ group
      → Deleted roles.policy prs w w1
      → repo.parent w1 id ≡ group
      → end ≡ repo.remove_parent_group (cleared w1) w1
      → Settles world session id "" (undoing (roles.policy.add prs) rollback_tx_error (λ _. end) w1)
  clear_ended w w1 (ok _, w2) step at gone still same =
      let now =
        ap (λ z. repo.parent z.1 id) same
        ∙ repo.removes_parent (cleared w1) w1 (ap (λ z. z.0) (sym same)) in
      (
        λ h ne.
            ap (λ z. roles.policy.holds z.1 (parent_of h id)) same
            ∙ world.remove_parent_keeps (cleared w1) w1 (parent_of h id)
            ∙ gone (parent_of h id)
            ∙ held_then world session id w group (λ l b. not l && b) h group step at ne
            ∙ taken_away (group == h)
            ∙ sym (not_empty h ne)
            ∙ ap (λ p. p == h) (sym now),
        now,
      )
  clear_ended w w1 (err e, w2) step at gone still same =
      clear_undone w w2 e (roles.policy.add prs w2) step at
        (λ r.
          ap (λ z. roles.policy.holds z.1 r) same
          ∙ world.remove_parent_keeps (cleared w1) w1 r
          ∙ gone r)
        (ap (λ z. repo.parent z.1 id) same
          ∙ repo.remove_parent_fails (cleared w1) w1 e id (ap (λ z. z.0) (sym same))
          ∙ still)
        refl

  pub clear_parent_lem :
      (w : W) (end : Result (Unit {0}) × W)
      → InStep world session id w
      → repo.parent w id ≡ group
      → end ≡ roles.policy.delete prs w
      → Settles world session id "" (
          (or_wrap delete_policies_error (λ _. end)
              >> undoing
                  (roles.policy.add prs)
                  rollback_tx_error
                  (λ w1. repo.remove_parent_group (cleared w1) w1))
            w)
  clear_parent_lem w (err e, w1) step at same = inl (
      kept-InStep world session id w w1 group step at
        (λ r.
          ap (λ z. roles.policy.holds z.1 r) same
          ∙ roles.policy.delete_fails prs w r e (ap (λ z. z.0) (sym same)))
        (ap (λ z. repo.parent z.1 id) same ∙ world.delete_keeps_parents prs w id ∙ at))
  clear_parent_lem w (ok _, w1) step at same =
      clear_ended w w1 (repo.remove_parent_group (cleared w1) w1) step at
        (λ r.
          ap (λ z. roles.policy.holds z.1 r) same
          ∙ roles.policy.delete_deletes prs w r (ap (λ z. z.0) (sym same)))
        (ap (λ z. repo.parent z.1 id) same ∙ world.delete_keeps_parents prs w id ∙ at) refl

module _ {W : Type 0} (world : ChannelWorld W) (session : Session) (id : String) where
  open world use {roles, repo}

  clear_any :
      (group : String) (none_there : Bool) (w : W)
      → InStep world session id w
      → repo.parent w id ≡ group
      → (group == "") ≡ none_there
      → Settles world session id ""
          ((if none_there then pure tt else clear_parent world session group id) w)
  clear_any group true w step at e = (step, at ∙ (eq_iff group "").0 e)
  clear_any group false w step at e =
      clear_parent_lem world session id group w
        (roles.policy.delete (parent_policy session.domain_id group id ∷ []) w) step at refl

  clear_found :
      (found : Result Channel) (w : W)
      → InStep world session id w
      → repo.retrieve_by_id id w ≡ found
      → Settles world session id "" (
          (or_wrap update_entity (read (λ _. found)) >>= λ ch.
          if ch.parent_group == "" then pure tt else clear_parent world session ch.parent_group id)
            w)
  clear_found (err _) w step e = inl step
  clear_found (ok ch) w step e =
      clear_any ch.parent_group (ch.parent_group == "") w step (repo.retrieves id w ch e).1 refl

  -- If the policies say of the channel's parent group what the repository says, they do so after
  -- RemoveParentGroup, which leaves no parent group, and after an error, unless the error says that
  -- the policy could not be put back.
  pub remove_parent_group-Settles :
      (w : W)
      → InStep world session id w
      → Settles world session id "" (remove_parent_group world session id w)
  unfolding remove_parent_group
  remove_parent_group-Settles w step = clear_found (repo.retrieve_by_id id w) w step refl

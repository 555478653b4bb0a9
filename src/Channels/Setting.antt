-- ===== src/Channels/Setting.antt =====
-- SetParentGroup of channels/service.go keeps the parent group in step.
use text.Mathlib.Text.{◌==◌}
use supermq.Common.{String, ◌≡◌, refl, sym, ap, ◌∙◌, not, ◌&&◌, ◌||◌, inl, inr, List, [], ◌∷◌}
use supermq.Errors.{Err, Result, ok, err, wrap}
use supermq.Service.{
  ◌>>=◌, ◌>>◌, read, or_wrap, undoing, after_rollback, update_entity, add_policies_error,
  rollback_tx_error,
}
use supermq.Policies.{Policy, same, listed}
use supermq.Policies.Atomic.{Added}
use supermq.Roles.Data.{Session}
use supermq.Channels.Data.{Channel, no_channel, Entity, ChannelWorld}
use supermq.Channels.Parents.{
  parent_policy, group_usable, parentless, write_parent, set_parent_group,
}
use supermq.Channels.InStep.{
  parent_of, not_empty, taken_back, or_nothing, parentless-ok, InStep, Settles, held_then,
  kept-InStep,
}

module _ {W : Type 0} (world : ChannelWorld W) (session : Session) (id group : String) where
  open world use {roles, repo, retrieve_group}

  abbrev prs : List Policy
  prs = parent_policy session.domain_id group id ∷ []

  abbrev stored : W → Channel
  stored w = record no_channel {
    id = id;
    parent_group = group;
    updated_by = session.user_id;
    updated_at = roles.now w;
  }

  -- The rollback of SetParentGroup.
  set_undone :
      (w w2 : W) (e : Err) (end : Result (Unit {0}) × W)
      → InStep world session id w
      → repo.parent w id ≡ ""
      → Added roles.policy prs w w2
      → repo.parent w2 id ≡ ""
      → end ≡ roles.policy.delete prs w2
      → Settles world session id group (after_rollback e rollback_tx_error end.0, end.1)
  set_undone w w2 e (err cause, w3) step none_before added none_after same = inr (e, cause, refl)
  set_undone w w2 e (ok _, w3) step none_before added none_after same = inl (λ h ne.
      ap (λ z. roles.policy.holds z.1 (parent_of h id)) same
      ∙ roles.policy.delete_deletes prs w2 (parent_of h id) (ap (λ z. z.0) (sym same))
      ∙ ap (λ b. not (listed prs (parent_of h id)) && b) (added (parent_of h id))
      ∙ held_then world session id w group (λ l b. not l && (l || b)) h "" step none_before ne
      ∙ taken_back (group == h) ("" == h) (not_empty h ne)
      ∙ ap (λ p. p == h)
          (sym (
            ap (λ z. repo.parent z.1 id) same ∙ world.delete_keeps_parents prs w2 id ∙ none_after)))

  set_ended :
      (w w1 : W) (end : Result (Unit {0}) × W)
      → InStep world session id w
      → repo.parent w id ≡ ""
      → Added roles.policy prs w w1
      → repo.parent w1 id ≡ ""
      → end ≡ repo.set_parent_group (stored w1) w1
      → Settles world session id group (
          undoing (roles.policy.delete prs) rollback_tx_error (or_wrap update_entity (λ _. end)) w1)
  set_ended w w1 (ok _, w2) step none_before added none_after same =
      let now =
        ap (λ z. repo.parent z.1 id) same
        ∙ repo.sets_parent (stored w1) w1 (ap (λ z. z.0) (sym same)) in
      (
        λ h ne.
            ap (λ z. roles.policy.holds z.1 (parent_of h id)) same
            ∙ world.set_parent_keeps (stored w1) w1 (parent_of h id)
            ∙ added (parent_of h id)
            ∙ held_then world session id w group (λ l b. l || b) h "" step none_before ne
            ∙ or_nothing (group == h) ("" == h) (not_empty h ne)
            ∙ ap (λ p. p == h) (sym now),
        now,
      )
  set_ended w w1 (err e, w2) step none_before added none_after same =
      set_undone w w2 (wrap update_entity e) (roles.policy.delete prs w2) step none_before
        (λ r.
          ap (λ z. roles.policy.holds z.1 r) same
          ∙ world.set_parent_keeps (stored w1) w1 r
          ∙ added r)
        (ap (λ z. repo.parent z.1 id) same
          ∙ repo.set_parent_fails (stored w1) w1 e id (ap (λ z. z.0) (sym same))
          ∙ none_after)
        refl

  set_added :
      (w : W) (end : Result (Unit {0}) × W)
      → InStep world session id w
      → repo.parent w id ≡ ""
      → end ≡ roles.policy.add prs w
      → Settles world session id group (
          (or_wrap add_policies_error (λ _. end)
              >> undoing
                  (roles.policy.delete prs)
                  rollback_tx_error
                  (λ w1. or_wrap update_entity (repo.set_parent_group (stored w1)) w1))
            w)
  set_added w (err e, w1) step none_before same = inl (
      kept-InStep world session id w w1 "" step none_before
        (λ r.
          ap (λ z. roles.policy.holds z.1 r) same
          ∙ roles.policy.add_fails prs w r e (ap (λ z. z.0) (sym same)))
        (ap (λ z. repo.parent z.1 id) same ∙ world.add_keeps_parents prs w id ∙ none_before))
  set_added w (ok _, w1) step none_before same =
      set_ended w w1 (repo.set_parent_group (stored w1) w1) step none_before
        (λ r.
          ap (λ z. roles.policy.holds z.1 r) same
          ∙ roles.policy.add_adds prs w r (ap (λ z. z.0) (sym same)))
        (ap (λ z. repo.parent z.1 id) same ∙ world.add_keeps_parents prs w id ∙ none_before) refl

  set_decided :
      (current : String) (answer : Result (Unit {0})) (w : W)
      → InStep world session id w
      → repo.parent w id ≡ current
      → parentless group current ≡ answer
      → Settles world session id group
          ((read (λ _. answer) >> write_parent world session group id) w)
  set_decided current (err _) w step at e = inl step
  set_decided current (ok _) w step at e =
      set_added w (roles.policy.add prs w) step (at ∙ parentless-ok group current e) refl

  set_checked :
      (current : String) (answer : Result (Unit {0})) (w : W)
      → InStep world session id w
      → repo.parent w id ≡ current
      → Settles world session id group (
          (read (λ _. answer)
              >> (read (λ _. parentless group current) >> write_parent world session group id))
            w)
  set_checked current (err _) w step at = inl step
  set_checked current (ok _) w step at =
      set_decided current (parentless group current) w step at refl

  set_found :
      (ch : Channel) (found : Result Entity) (w : W)
      → InStep world session id w
      → repo.parent w id ≡ ch.parent_group
      → Settles world session id group (
          (or_wrap update_entity (read (λ _. found)) >>= λ e.
          read (λ _. group_usable session group e)
          >> (read (λ _. parentless group ch.parent_group) >> write_parent world session group id))
            w)
  set_found ch (err _) w step at = inl step
  set_found ch (ok e) w step at =
      set_checked ch.parent_group (group_usable session group e) w step at

  set_started :
      (stored_channel : Result Channel) (w : W)
      → InStep world session id w
      → repo.retrieve_by_id id w ≡ stored_channel
      → Settles world session id group (
          (or_wrap update_entity (read (λ _. stored_channel)) >>= λ ch.
          or_wrap update_entity (read (retrieve_group group)) >>= λ e.
          read (λ _. group_usable session group e)
          >> (read (λ _. parentless group ch.parent_group) >> write_parent world session group id))
            w)
  set_started (err _) w step e = inl step
  set_started (ok ch) w step e =
      set_found ch (retrieve_group group w) w step (repo.retrieves id w ch e).1

  -- If the policies say of the channel's parent group what the repository says, they do so after
  -- SetParentGroup, which then has set the group, and after an error, unless the error says that
  -- the policy could not be taken back.
  pub set_parent_group-Settles :
      (w : W)
      → InStep world session id w
      → Settles world session id group (set_parent_group world session group id w)
  unfolding set_parent_group
  set_parent_group-Settles w step = set_started (repo.retrieve_by_id id w) w step refl

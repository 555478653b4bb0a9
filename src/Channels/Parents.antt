-- ===== src/Channels/Parents.antt =====
-- The parent group of a channel in channels/service.go and channels/private/service.go.
use Prim.Native.String.{◌++◌ as join}
use text.Mathlib.Text.{◌==◌}
use supermq.Common.{String, not, List, [], ◌∷◌, map, none, if◌then◌else◌, ◌==◌ as equal}
use supermq.Errors.{Err, new, foreign, wrap, Result, ok, err}
use supermq.Service.{
  Action, ◌>>=◌, ◌>>◌, pure, read, or_wrap, undoing, update_entity, view_entity, remove_entity,
  conflict, add_policies_error, delete_policies_error, rollback_tx_error,
}
use supermq.Policies.{Policy, no_policy}
use supermq.Roles.Data.{Session}
use supermq.Channels.Data.{enabled, status_number, Channel, no_channel, Entity, ChannelWorld}

abbrev pub set_parent_error : Err
set_parent_error = new none "channel already have parent"

abbrev pub same_parent_error : Err
same_parent_error = new none "channel already assigned to the parent group"

-- The policy that the group is the channel's parent.
abbrev pub parent_policy : String → String → String → Policy
parent_policy domain group id = record no_policy {
  domain = domain;
  subject_type = "group";
  subject = group;
  relation = "parent_group";
  object_type = "channel";
  object = id;
}

-- The checks of the group in SetParentGroup.
abbrev pub group_usable : Session → String → Entity → Result (Unit {0})
group_usable session group e =
    if not (e.domain_id == session.domain_id)
    then err (
        wrap update_entity
          (foreign (join "parent group id " (join group " has invalid domain id"))))
    else if not (equal e.status (status_number enabled))
    then err (
        wrap update_entity
          (foreign (join "parent group id " (join group " is not in enabled state"))))
    else ok tt

-- The switch of SetParentGroup on the channel's parent group.
abbrev pub parentless : String → String → Result (Unit {0})
parentless group current =
    if current == group
    then err (wrap conflict same_parent_error)
    else if current == ""
    then ok tt
    else err (wrap conflict set_parent_error)

module _ {W : Type 0} (world : ChannelWorld W) where
  open world use {roles, repo, retrieve_group}

  -- The write of SetParentGroup, with its rollback.
  abbrev pub write_parent : Session → String → String → Action W (Unit {0})
  write_parent session group id =
      let prs = parent_policy session.domain_id group id ∷ [] in
      or_wrap add_policies_error (roles.policy.add prs)
      >> undoing (roles.policy.delete prs) rollback_tx_error (λ w.
        or_wrap update_entity
          (repo.set_parent_group (record no_channel {
            id = id;
            parent_group = group;
            updated_by = session.user_id;
            updated_at = roles.now w;
          }))
          w)

  -- SetParentGroup
  unfoldable pub set_parent_group : Session → String → String → Action W (Unit {0})
  set_parent_group session group id =
      or_wrap update_entity (read (repo.retrieve_by_id id)) >>= λ ch.
      or_wrap update_entity (read (retrieve_group group)) >>= λ e.
      read (λ _. group_usable session group e)
      >> (read (λ _. parentless group ch.parent_group) >> write_parent session group id)

  -- The write of RemoveParentGroup, with its rollback.
  abbrev pub clear_parent : Session → String → String → Action W (Unit {0})
  clear_parent session group id =
      let prs = parent_policy session.domain_id group id ∷ [] in
      or_wrap delete_policies_error (roles.policy.delete prs)
      >> undoing (roles.policy.add prs) rollback_tx_error (λ w.
        repo.remove_parent_group
          (record no_channel { id = id; updated_by = session.user_id; updated_at = roles.now w }) w)

  -- RemoveParentGroup
  unfoldable pub remove_parent_group : Session → String → Action W (Unit {0})
  remove_parent_group session id = or_wrap update_entity (read (repo.retrieve_by_id id)) >>= λ ch.
      if ch.parent_group == "" then pure tt else clear_parent session ch.parent_group id

  -- The rollback of UnsetParentGroupFromChannels, which tests an error that is nil in place of the
  -- rollback's own, and so reports none.
  abbrev pub undoing_silently : Action W (Unit {0}) → Action W (Unit {0}) → Action W (Unit {0})
  undoing_silently undo rest w =
      let (r, w') = rest w in
      elim r [ ok a ↦ (ok a, w') | err e ↦ let (_, w'') = undo w' in (err e, w'') ]

  -- The body of UnsetParentGroupFromChannels for channels that there are.
  abbrev pub unset_found : String → List Channel → Action W (Unit {0})
  unset_found group chs =
      let prs = map (λ (c : Channel). parent_policy "" c.parent_group c.id) chs in
      or_wrap delete_policies_error (roles.policy.delete prs)
      >> undoing_silently (roles.policy.add prs)
          (or_wrap remove_entity (repo.unset_parent_group_from_channels group))

  abbrev pub unset_any : String → List Channel → Action W (Unit {0})
  unset_any group [] = pure tt
  unset_any group (c ∷ cs) = unset_found group (c ∷ cs)

  -- UnsetParentGroupFromChannels
  unfoldable pub unset_parent_group_from_channels : String → Action W (Unit {0})
  unset_parent_group_from_channels group =
      or_wrap view_entity (read (repo.retrieve_parent_group_channels group)) >>= unset_any group

-- ===== src/Channels/Manage.antt =====
-- The channels themselves in channels/service.go.
use text.Mathlib.Text.{◌==◌}
use supermq.Common.{
  String, Bool, true, false, not, List, [], ◌∷◌, map, none, if◌then◌else◌, ◌==◌ as equal,
}
use supermq.Errors.{Err, new}
use supermq.Service.{
  Action, ◌>>=◌, ◌>>◌, pure, fail_if, read, gets, or_wrap, undoing, remove_entity, view_entity,
  update_entity, save_error, add_policies_error, delete_policies_error, invalid_status,
  rollback_repo_error, status_already_assigned,
}
use supermq.Policies.{Policy, no_policy}
use supermq.Roles.Data.{RoleProvision, Session, Provisioner}
use supermq.Roles.Provision.{add_new_entities_roles, remove_entities_roles}
use supermq.Channels.Data.{
  Status, enabled, disabled, deleted, status_number, Channel, no_channel, ChannelWorld,
}

abbrev pub enable_channel_error : Err
enable_channel_error = new none "failed to enable channel"

abbrev pub disable_channel_error : Err
disable_channel_error = new none "failed to disable channel"

-- The statuses that a new channel may have.
abbrev pub creatable : Status → Bool
creatable Status.enabled = true
creatable Status.disabled = true
creatable _ = false

-- The policy that the channel is in the domain.
abbrev pub domain_policy : String → String → Policy
domain_policy domain id = record no_policy {
  subject_type = "domain";
  subject = domain;
  relation = "domain";
  object_type = "channel";
  object = id;
}

-- The optional policies of RemoveChannel.
abbrev pub removed_policies : Session → Channel → String → List Policy
removed_policies session ch id =
    domain_policy session.domain_id id
    ∷ (if ch.parent_group == ""
        then []
        else record no_policy {
          subject_type = "group";
          subject = ch.parent_group;
          relation = "parent_group";
          object_type = "channel";
          object = id;
        }
          ∷ [])

-- The filters of RemoveChannel.
abbrev pub removed_filters : String → List Policy
removed_filters id =
    record no_policy { subject_type = "channel"; subject = id }
    ∷ record no_policy { object_type = "channel"; object = id }
    ∷ []

module _ {W : Type 0} (world : ChannelWorld W) (p : Provisioner) where
  open world use {roles, repo, clients, new_id, remove_cached}

  abbrev pub channel_id_of : Channel → Action W String
  channel_id_of c = if c.id == "" then new_id else pure c.id

  -- The loop of CreateChannels.
  unfoldable pub prepare : Session → List Channel → Action W (List Channel)
  prepare session [] = pure []
  prepare session (c ∷ cs) = do
    id ← channel_id_of c
    _ ← fail_if (not (creatable c.status)) invalid_status
    time ← gets roles.now
    rest ← prepare session cs
    pure (record c { id = id; domain = session.domain_id; created_at = time } ∷ rest)

  abbrev pub save : List Channel → Action W (List Channel)
  save cs w = let (r, w') = repo.save cs w in (save_error r, w')

  -- The part of CreateChannels after Save, with its rollback.
  abbrev pub provision_channels :
      Session → List Channel → Action W (List Channel × List RoleProvision)
  provision_channels session saved =
      let ids = map (λ (c : Channel). c.id) saved in
      undoing (repo.remove ids) rollback_repo_error (
        or_wrap add_policies_error (
          add_new_entities_roles roles p session.domain_id session.user_id ids
            (map (domain_policy session.domain_id) ids) (("admin", session.user_id ∷ []) ∷ []))
        >>= λ rps. pure (saved, rps))

  -- CreateChannels
  unfoldable pub create_channels :
      Session → List Channel → Action W (List Channel × List RoleProvision)
  unfolding prepare
  create_channels session cs =
      prepare session cs >>= λ ready. save ready >>= λ saved. provision_channels session saved

  -- UpdateChannel
  unfoldable pub update_channel : Session → Channel → Action W Channel
  update_channel session ch w =
      or_wrap update_entity
        (repo.update (record no_channel {
          id = ch.id;
          name = ch.name;
          metadata = ch.metadata;
          updated_at = roles.now w;
          updated_by = session.user_id;
        }))
        w

  -- UpdateChannelTags
  unfoldable pub update_channel_tags : Session → Channel → Action W Channel
  update_channel_tags session ch w =
      or_wrap update_entity
        (repo.update_tags (record no_channel {
          id = ch.id;
          tags = ch.tags;
          updated_at = roles.now w;
          updated_by = session.user_id;
        }))
        w

  -- changeChannelStatus
  unfoldable pub change_channel_status : String → Channel → Action W Channel
  change_channel_status user_id channel =
      or_wrap view_entity (read (repo.retrieve_by_id channel.id)) >>= λ stored.
      fail_if (equal (status_number stored.status) (status_number channel.status))
        status_already_assigned
      >> or_wrap update_entity (repo.change_status (record channel { updated_by = user_id }))

  -- EnableChannel
  unfoldable pub enable_channel : Session → String → Action W Channel
  unfolding change_channel_status
  enable_channel session id w =
      or_wrap enable_channel_error
        (change_channel_status session.user_id
          (record no_channel { id = id; status = enabled; updated_at = roles.now w }))
        w

  -- DisableChannel
  unfoldable pub disable_channel : Session → String → Action W Channel
  unfolding change_channel_status
  disable_channel session id w =
      or_wrap disable_channel_error
        (change_channel_status session.user_id
          (record no_channel { id = id; status = disabled; updated_at = roles.now w }))
        w

  -- ViewChannel
  unfoldable pub view_channel : Session → String → Bool → Action W Channel
  view_channel session id with_roles = or_wrap view_entity (
      read (
        if with_roles
        then repo.retrieve_by_id_with_roles id session.user_id
        else repo.retrieve_by_id id))

  -- The connections that RemoveChannel drops in the clients service.
  abbrev pub drop_connections : String → Action W (Unit {0})
  drop_connections id =
      or_wrap remove_entity (read (repo.does_channel_have_connections id)) >>= λ any.
      if any then or_wrap remove_entity (clients.remove_channel_connections id) else pure tt

  abbrev pub uncache : Channel → Action W (Unit {0})
  uncache ch =
      if ch.route == "" then pure tt else or_wrap remove_entity (remove_cached ch.route ch.domain)

  -- RemoveChannel from the policies on.
  abbrev pub remove_provisioned : Session → String → Channel → Action W (Unit {0})
  remove_provisioned session id ch =
      or_wrap delete_policies_error (
        remove_entities_roles roles p session.domain_id (id ∷ []) (removed_filters id)
          (removed_policies session ch id))
      >> or_wrap remove_entity (repo.remove (id ∷ []))

  -- RemoveChannel
  unfoldable pub remove_channel : Session → String → Action W (Unit {0})
  remove_channel session id =
      drop_connections id
      >> (or_wrap remove_entity
            (repo.change_status (record no_channel { id = id; status = deleted }))
          >>= λ ch. uncache ch >> remove_provisioned session id ch)

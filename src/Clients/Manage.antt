-- ===== src/Clients/Manage.antt =====
-- The clients themselves in clients/service.go.
use text.Mathlib.Text.{◌==◌}
use supermq.Common.{
  String, Bool, true, false, not, List, [], ◌∷◌, map, none, some, if◌then◌else◌, ◌==◌ as equal,
}
use supermq.Errors.{Err, new, service}
use supermq.Service.{
  Action, ◌>>=◌, ◌>>◌, pure, fail_if, read, gets, or_wrap, undoing, create_entity, remove_entity,
  view_entity, update_entity, add_policies_error, delete_policies_error, invalid_status,
  rollback_repo_error, status_already_assigned,
}
use supermq.Policies.{Policy, no_policy}
use supermq.Roles.Data.{RoleProvision, Session, Provisioner}
use supermq.Roles.Provision.{add_new_entities_roles, remove_entities_roles}
use supermq.Clients.Cache.{cache_remove}
use supermq.Clients.Data.{
  Status, enabled, disabled, deleted, status_number, Client, no_client, ClientWorld,
}

abbrev pub issue_id_error : Err
issue_id_error = new (some service) "failed to issue unique ID from id provider"

abbrev pub enable_client_error : Err
enable_client_error = new none "failed to enable client"

abbrev pub disable_client_error : Err
disable_client_error = new none "failed to disable client"

-- The statuses that a new client may have.
abbrev pub creatable : Status → Bool
creatable Status.enabled = true
creatable Status.disabled = true
creatable _ = false

-- The policy that the client is in the domain, as CreateClients and as Delete have it.
abbrev pub new_client_policy : String → String → Policy
new_client_policy domain id = record no_policy {
  domain = domain;
  subject_type = "domain";
  subject = domain;
  relation = "domain";
  object_type = "client";
  object = id;
}

abbrev pub deleted_client_policy : String → String → Policy
deleted_client_policy domain id = record (new_client_policy domain id) { domain = "" }

-- The filters of Delete.
abbrev pub deleted_client_filters : String → List Policy
deleted_client_filters id =
    record no_policy { subject_type = "client"; subject = id }
    ∷ record no_policy { object_type = "client"; object = id }
    ∷ []

module _ {W : Type 0} (world : ClientWorld W) (p : Provisioner) where
  open world use {roles, repo, redis, new_id, remove_client_connections}

  abbrev pub or_new_id : String → Action W String
  or_new_id s = if s == "" then or_wrap issue_id_error new_id else pure s

  -- The loop of CreateClients.
  unfoldable pub prepare_clients : Session → List Client → Action W (List Client)
  prepare_clients session [] = pure []
  prepare_clients session (c ∷ cs) = do
    id ← or_new_id c.id
    secret ← or_new_id c.credentials.secret
    _ ← fail_if (not (creatable c.status)) invalid_status
    time ← gets roles.now
    rest ← prepare_clients session cs
    pure (
        record c {
          id = id;
          credentials = record c.credentials { secret = secret };
          domain = session.domain_id;
          created_at = time;
        }
        ∷ rest)

  -- CreateClients once the clients are saved, with its rollback.
  abbrev pub provision_clients : Session → List Client → Action W (List Client × List RoleProvision)
  provision_clients session saved =
      let ids = map (λ (c : Client). c.id) saved in
      undoing (repo.remove ids) rollback_repo_error (
        or_wrap add_policies_error (
          add_new_entities_roles roles p session.domain_id session.user_id ids
            (map (new_client_policy session.domain_id) ids) (("admin", session.user_id ∷ []) ∷ []))
        >>= λ rps. pure (saved, rps))

  -- CreateClients
  unfoldable pub create_clients :
      Session → List Client → Action W (List Client × List RoleProvision)
  unfolding prepare_clients
  create_clients session cs = prepare_clients session cs >>= λ ready.
      or_wrap create_entity (repo.save ready) >>= provision_clients session

  -- View
  unfoldable pub view_client : Session → String → Bool → Action W Client
  view_client session id with_roles = or_wrap view_entity (
      read (
        if with_roles
        then repo.retrieve_by_id_with_roles id session.user_id
        else repo.retrieve_by_id id))

  -- Update
  unfoldable pub update_client : Session → Client → Action W Client
  update_client session c w =
      or_wrap update_entity
        (repo.update (record no_client {
          id = c.id;
          name = c.name;
          metadata = c.metadata;
          private_metadata = c.private_metadata;
          updated_at = roles.now w;
          updated_by = session.user_id;
        }))
        w

  -- UpdateTags
  unfoldable pub update_client_tags : Session → Client → Action W Client
  update_client_tags session c w =
      or_wrap update_entity
        (repo.update_tags (record no_client {
          id = c.id;
          tags = c.tags;
          updated_at = roles.now w;
          updated_by = session.user_id;
        }))
        w

  -- UpdateSecret
  unfoldable pub update_client_secret : Session → String → String → Action W Client
  update_client_secret session id key w =
      or_wrap update_entity
        (repo.update_secret (record no_client {
          id = id;
          credentials = record { identity = ""; secret = key };
          updated_at = roles.now w;
          updated_by = session.user_id;
          status = enabled;
        }))
        w

  -- changeClientStatus
  unfoldable pub change_client_status : Session → Client → Action W Client
  change_client_status session c =
      or_wrap view_entity (read (repo.retrieve_by_id c.id)) >>= λ stored.
      fail_if (equal (status_number stored.status) (status_number c.status)) status_already_assigned
      >> or_wrap update_entity (repo.change_status (record c { updated_by = session.user_id }))

  -- Enable
  unfoldable pub enable_client : Session → String → Action W Client
  unfolding change_client_status
  enable_client session id w =
      or_wrap enable_client_error
        (change_client_status session
          (record no_client { id = id; status = enabled; updated_at = roles.now w }))
        w

  -- The end of Disable.
  abbrev pub uncache_client : Client → Action W Client
  uncache_client c = or_wrap remove_entity (cache_remove redis c.id) >> pure c

  -- Disable
  unfoldable pub disable_client : Session → String → Action W Client
  unfolding change_client_status
  disable_client session id w =
      (or_wrap disable_client_error (
            change_client_status session
              (record no_client { id = id; status = disabled; updated_at = roles.now w }))
          >>= uncache_client)
        w

  -- The connections that Delete drops in the channels service.
  abbrev pub drop_client_connections : String → Action W (Unit {0})
  drop_client_connections id =
      or_wrap remove_entity (read (repo.does_client_have_connections id)) >>= λ any.
      if any then or_wrap remove_entity (remove_client_connections id) else pure tt

  -- Delete
  unfoldable pub delete_client : Session → String → Action W (Unit {0})
  delete_client session id =
      drop_client_connections id
      >> (or_wrap remove_entity
            (repo.change_status (record no_client { id = id; status = deleted }))
          >> (or_wrap remove_entity (cache_remove redis id)
              >> (or_wrap delete_policies_error (
                    remove_entities_roles roles p session.domain_id (id ∷ [])
                      (deleted_client_filters id) (deleted_client_policy session.domain_id id ∷ []))
                  >> or_wrap remove_entity (repo.remove (id ∷ [])))))

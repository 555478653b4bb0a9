-- ===== src/Clients/Parents.antt =====
-- The parent group of a client in clients/service.go and clients/private/service.go.
use text.Mathlib.Text.{◌==◌}
use supermq.Common.{String, not, List, [], ◌∷◌, map, some, if◌then◌else◌, ◌==◌ as equal}
use supermq.Errors.{Err, new, wrap, request, Result, ok, err}
use supermq.Service.{
  Action, ◌>>=◌, ◌>>◌, pure, read, or_wrap, undoing, update_entity, view_entity, remove_entity,
  conflict, add_policies_error, delete_policies_error, rollback_tx_error,
}
use supermq.Policies.{Policy, no_policy}
use supermq.Roles.Data.{Session}
use supermq.Channels.Data.{Entity}
use supermq.Clients.Data.{enabled, status_number, Client, no_client, ClientWorld}

abbrev pub have_parent_error : Err
have_parent_error = new (some request) "client already have parent"

abbrev pub have_same_parent_error : Err
have_same_parent_error = new (some request) "client already assigned to the parent group"

abbrev pub parent_domain_error : Err
parent_domain_error = new (some request) "parent group has invalid domain id"

abbrev pub parent_disabled_error : Err
parent_disabled_error = new (some request) "parent group is not enabled"

-- The policy that the group is the client's parent.
abbrev pub client_parent_policy : String → String → String → Policy
client_parent_policy domain group id = record no_policy {
  domain = domain;
  subject_type = "group";
  subject = group;
  relation = "parent_group";
  object_type = "client";
  object = id;
}

-- The checks of the group in SetParentGroup.
abbrev pub parent_usable : Session → Entity → Result (Unit {0})
parent_usable session e =
    if not (e.domain_id == session.domain_id)
    then err (wrap update_entity parent_domain_error)
    else if not (equal e.status (status_number enabled))
    then err (wrap update_entity parent_disabled_error)
    else ok tt

-- The switch of SetParentGroup on the client's parent group.
abbrev pub client_parentless : String → String → Result (Unit {0})
client_parentless group current =
    if current == group
    then err (wrap conflict have_same_parent_error)
    else if current == ""
    then ok tt
    else err (wrap conflict have_parent_error)

module _ {W : Type 0} (world : ClientWorld W) where
  open world use {roles, repo, retrieve_group}

  abbrev pub client_with_parent : Session → String → String → W → Client
  client_with_parent session group id w = record no_client {
    id = id;
    parent_group = group;
    updated_by = session.user_id;
    updated_at = roles.now w;
  }

  -- The write of SetParentGroup, with its rollback.
  abbrev pub write_client_parent : Session → String → String → Action W (Unit {0})
  write_client_parent session group id =
      let prs = client_parent_policy session.domain_id group id ∷ [] in
      or_wrap add_policies_error (roles.policy.add prs)
      >> undoing (roles.policy.delete prs) rollback_tx_error (λ w.
        or_wrap update_entity (repo.set_parent_group (client_with_parent session group id w)) w)

  -- SetParentGroup
  unfoldable pub set_client_parent_group : Session → String → String → Action W (Unit {0})
  set_client_parent_group session group id =
      or_wrap update_entity (read (repo.retrieve_by_id id)) >>= λ c.
      read (λ _. client_parentless group c.parent_group)
      >> (or_wrap update_entity (read (retrieve_group group)) >>= λ e.
          read (λ _. parent_usable session e) >> write_client_parent session group id)

  -- The write of RemoveParentGroup, with its rollback.
  abbrev pub clear_client_parent : Session → String → String → Action W (Unit {0})
  clear_client_parent session group id =
      let prs = client_parent_policy session.domain_id group id ∷ [] in
      or_wrap delete_policies_error (roles.policy.delete prs)
      >> undoing (roles.policy.add prs) rollback_tx_error (λ w.
        or_wrap update_entity
          (repo.remove_parent_group
            (record no_client { id = id; updated_by = session.user_id; updated_at = roles.now w }))
          w)

  -- RemoveParentGroup
  unfoldable pub remove_client_parent_group : Session → String → Action W (Unit {0})
  remove_client_parent_group session id =
      or_wrap view_entity (read (repo.retrieve_by_id id)) >>= λ c.
      if c.parent_group == "" then pure tt else clear_client_parent session c.parent_group id

  -- The rollback of UnsetParentGroupFromClient, which tests an error that is nil in place of the
  -- rollback's own, and so reports none.
  abbrev pub undoing_unreported : Action W (Unit {0}) → Action W (Unit {0}) → Action W (Unit {0})
  undoing_unreported undo rest w =
      let (r, w') = rest w in
      elim r [ ok a ↦ (ok a, w') | err e ↦ let (_, w'') = undo w' in (err e, w'') ]

  -- The body of UnsetParentGroupFromClient for clients that there are.
  abbrev pub unset_clients_found : String → List Client → Action W (Unit {0})
  unset_clients_found group cs =
      let prs = map (λ (c : Client). client_parent_policy "" c.parent_group c.id) cs in
      or_wrap delete_policies_error (roles.policy.delete prs)
      >> undoing_unreported (roles.policy.add prs)
          (or_wrap remove_entity (repo.unset_parent_group_from_client group))

  abbrev pub unset_any_client : String → List Client → Action W (Unit {0})
  unset_any_client group [] = pure tt
  unset_any_client group (c ∷ cs) = unset_clients_found group (c ∷ cs)

  -- UnsetParentGroupFromClient
  unfoldable pub unset_parent_group_from_client : String → Action W (Unit {0})
  unset_parent_group_from_client group =
      or_wrap view_entity (read (repo.retrieve_parent_group_clients group))
      >>= unset_any_client group

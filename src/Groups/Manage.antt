-- ===== src/Groups/Manage.antt =====
-- The groups themselves in groups/service.go.
use text.Mathlib.Text.{◌==◌}
use supermq.Common.{
  String, Bool, true, false, not, some, List, [], ◌∷◌, if◌then◌else◌, ◌==◌ as equal,
}
use supermq.Errors.{Err, new, service}
use supermq.Service.{
  Action, ◌>>=◌, ◌>>◌, pure, fail_if, read, or_wrap, undoing, create_entity, remove_entity,
  view_entity, update_entity, add_policies_error, delete_policies_error, invalid_status,
  rollback_tx_error, status_already_assigned,
}
use supermq.Policies.{Policy, no_policy}
use supermq.Roles.Data.{RoleProvision, Session, Provisioner}
use supermq.Roles.Provision.{add_new_entities_roles, remove_entities_roles}
use supermq.Groups.Data.{
  Status, enabled, disabled, deleted, status_number, Group, no_group, GroupWorld,
}

abbrev pub change_group_status_error : Err
change_group_status_error = new (some service) "failed to change group status"

-- The statuses that a new group may have.
abbrev pub creatable : Status → Bool
creatable Status.enabled = true
creatable Status.disabled = true
creatable _ = false

-- The policy that the group is in the domain.
abbrev pub group_domain_policy : String → String → Policy
group_domain_policy domain id = record no_policy {
  subject_type = "domain";
  subject = domain;
  relation = "domain";
  object_type = "group";
  object = id;
}

-- The policy that a group is the parent of another.
abbrev pub group_parent_policy : String → String → String → Policy
group_parent_policy domain parent id = record no_policy {
  domain = domain;
  subject_type = "group";
  subject = parent;
  relation = "parent_group";
  object_type = "group";
  object = id;
}

-- The optional policies of CreateGroup.
abbrev pub new_group_policies : Session → Group → List Policy
new_group_policies session saved =
    record (group_domain_policy session.domain_id saved.id) { domain = session.domain_id }
    ∷ (if saved.parent == ""
        then []
        else record (group_parent_policy session.domain_id saved.parent saved.id) {
          object_kind = "new_group";
        }
          ∷ [])

-- The policies and the filters that DeleteGroup passes on.
abbrev pub deleted_policies : Session → Group → String → List Policy
deleted_policies session g id =
    group_domain_policy session.domain_id id
    ∷ (if g.parent == "" then [] else group_parent_policy "" g.parent id ∷ [])

abbrev pub deleted_filters : String → List Policy
deleted_filters id =
    record no_policy { subject_type = "group"; subject = id }
    ∷ record no_policy { object_type = "group"; object = id }
    ∷ []

module _ {W : Type 0} (world : GroupWorld W) (p : Provisioner) where
  open world use {roles, repo, new_id, unset_channels, unset_clients}

  -- CreateGroup once the group is saved, with its rollback.
  abbrev pub provision_group : Session → Group → Action W (Group × List RoleProvision)
  provision_group session saved = undoing (repo.remove saved.id) rollback_tx_error (
      or_wrap add_policies_error (
        add_new_entities_roles roles p session.domain_id session.user_id (saved.id ∷ [])
          (new_group_policies session saved) (("admin", session.user_id ∷ []) ∷ []))
      >>= λ rps. pure (saved, rps))

  -- CreateGroup once the group has an ID.
  abbrev pub create_group_with : Session → Group → String → Action W (Group × List RoleProvision)
  create_group_with session g id = fail_if (not (creatable g.status)) invalid_status >> λ w.
      let g' = record g { id = id; created_at = roles.now w; domain = session.domain_id } in
      (or_wrap create_entity (repo.save g') >>= provision_group session) w

  -- CreateGroup
  unfoldable pub create_group : Session → Group → Action W (Group × List RoleProvision)
  create_group session g = or_wrap create_entity new_id >>= create_group_with session g

  -- ViewGroup
  unfoldable pub view_group : Session → String → Bool → Action W Group
  view_group session id with_roles = or_wrap view_entity (
      read (
        if with_roles
        then repo.retrieve_by_id_with_roles id session.user_id
        else repo.retrieve_by_id id))

  -- UpdateGroup
  unfoldable pub update_group : Session → Group → Action W Group
  update_group session g w =
      or_wrap update_entity
        (repo.update (record g { updated_at = roles.now w; updated_by = session.user_id })) w

  -- UpdateGroupTags
  unfoldable pub update_group_tags : Session → Group → Action W Group
  update_group_tags session g w =
      or_wrap update_entity
        (repo.update_tags (record no_group {
          id = g.id;
          tags = g.tags;
          updated_at = roles.now w;
          updated_by = session.user_id;
        }))
        w

  -- changeGroupStatus
  unfoldable pub change_group_status : Session → Group → Action W Group
  change_group_status session g =
      or_wrap view_entity (read (repo.retrieve_by_id g.id)) >>= λ stored.
      fail_if (equal (status_number stored.status) (status_number g.status)) status_already_assigned
      >> repo.change_status (record g { updated_by = session.user_id })

  -- EnableGroup and DisableGroup, which differ in the status.
  unfoldable pub enable_group : Session → String → Action W Group
  unfolding change_group_status
  enable_group session id w =
      or_wrap change_group_status_error
        (change_group_status session
          (record no_group { id = id; status = enabled; updated_at = roles.now w }))
        w

  unfoldable pub disable_group : Session → String → Action W Group
  unfolding change_group_status
  disable_group session id w =
      or_wrap change_group_status_error
        (change_group_status session
          (record no_group { id = id; status = disabled; updated_at = roles.now w }))
        w

  -- DeleteGroup
  unfoldable pub delete_group : Session → String → Action W (Unit {0})
  delete_group session id =
      or_wrap remove_entity (unset_channels id)
      >> (or_wrap remove_entity (unset_clients id)
          >> (or_wrap remove_entity
                (repo.change_status (record no_group { id = id; status = deleted }))
              >>= λ g.
                  or_wrap delete_policies_error (
                    remove_entities_roles roles p session.domain_id (id ∷ []) (deleted_filters id)
                      (deleted_policies session g id))
                  >> or_wrap remove_entity (repo.remove id)))

-- ===== src/Groups/Hierarchy.antt =====
-- The parents and the children of groups in groups/service.go.
use Prim.Native.String.{◌++◌ as join}
use text.Mathlib.Text.{◌==◌}
use supermq.Common.{
  String, Bool, true, false, not, ◌&&◌, none, some, List, [], ◌∷◌, map, if◌then◌else◌,
}
use supermq.Errors.{Err, new, foreign, wrap, request, Result, ok, err}
use supermq.Service.{
  Action, ◌>>=◌, ◌>>◌, pure, fail_if, read, or_wrap, undoing, view_entity, update_entity,
  remove_entity, conflict, add_policies_error, delete_policies_error, rollback_tx_error,
}
use supermq.Policies.{Policy, no_policy}
use supermq.Roles.Data.{Session}
use supermq.Groups.Data.{enabled, Group, PageMeta, GroupWorld}
use supermq.Groups.Manage.{group_parent_policy}

abbrev pub group_ids_error : Err
group_ids_error = new none "invalid group ids"

abbrev pub group_have_parent : Err
group_have_parent = new (some request) "group already have parent"

abbrev pub different_parent : Err
different_parent = new (some request) "groups have different parent"

-- The policies of the children that were found.
abbrev pub children_policies : Session → String → List Group → List Policy
children_policies session parent =
    map (λ (g : Group). group_parent_policy session.domain_id parent g.id)

-- The loop over the children in AddChildrenGroups.
unfoldable pub all_orphans : List Group → Result (Unit {0})
all_orphans [] = ok tt
all_orphans (g ∷ gs) =
    let rest = all_orphans gs in
    if g.parent == "" then rest else err (wrap conflict group_have_parent)

-- The loop over the children in RemoveChildrenGroups.
unfoldable pub all_children_of : String → List Group → Result (Unit {0})
all_children_of parent [] = ok tt
all_children_of parent (g ∷ gs) =
    let rest = all_children_of parent gs in
    if not (g.parent == "") && not (g.parent == parent)
    then err (wrap conflict different_parent)
    else rest

-- `PageMeta{Limit: 1<<63 - 1}`
abbrev pub no_limit : PageMeta
no_limit = record { limit = 9_223_372_036_854_775_807; status = enabled }

abbrev pub none_found : List Group → Bool
none_found [] = true
none_found (_ ∷ _) = false

module _ {W : Type 0} (world : GroupWorld W) where
  open world use {roles, repo}

  -- Adding policies of parents before the repository assigns them, with the rollback.
  abbrev pub assigning : List Policy → Action W (Unit {0}) → Action W (Unit {0})
  assigning prs assign =
      or_wrap add_policies_error (roles.policy.add prs)
      >> undoing (roles.policy.delete prs) rollback_tx_error assign

  -- Deleting policies of parents before the repository unassigns them, with the rollback.
  abbrev pub unassigning : List Policy → Action W (Unit {0}) → Action W (Unit {0})
  unassigning prs unassign =
      or_wrap delete_policies_error (roles.policy.delete prs)
      >> undoing (roles.policy.add prs) rollback_tx_error unassign

  -- AddParentGroup
  unfoldable pub add_parent_group : Session → String → String → Action W (Unit {0})
  add_parent_group session id parent = or_wrap view_entity (read (repo.retrieve_by_id id)) >>= λ g.
      fail_if (not (g.parent == ""))
        (wrap conflict (foreign (join g.id " group already have parent")))
      >> assigning (group_parent_policy session.domain_id parent g.id ∷ [])
          (repo.assign_parent_group parent (g.id ∷ []))

  -- RemoveParentGroup
  unfoldable pub group_remove_parent_group : Session → String → Action W (Unit {0})
  group_remove_parent_group session id =
      or_wrap view_entity (read (repo.retrieve_by_id id)) >>= λ g.
      if g.parent == ""
      then pure tt
      else unassigning (group_parent_policy session.domain_id g.parent g.id ∷ [])
          (or_wrap remove_entity (repo.unassign_parent_group g.parent (g.id ∷ [])))

  -- AddChildrenGroups once the children are found.
  abbrev pub add_found : Session → String → List String → List Group → Action W (Unit {0})
  add_found session parent ids found =
      fail_if (none_found found) group_ids_error
      >> (read (λ _. all_orphans found)
          >> assigning (children_policies session parent found)
              (or_wrap update_entity (repo.assign_parent_group parent ids)))

  -- AddChildrenGroups
  unfoldable pub add_children_groups : Session → String → List String → Action W (Unit {0})
  unfolding all_orphans
  add_children_groups session parent ids =
      or_wrap view_entity (read (repo.retrieve_by_ids no_limit ids))
      >>= add_found session parent ids

  -- RemoveChildrenGroups
  unfoldable pub remove_children_groups : Session → String → List String → Action W (Unit {0})
  unfolding all_children_of
  remove_children_groups session parent ids =
      or_wrap view_entity (read (repo.retrieve_by_ids no_limit ids)) >>= λ found.
      fail_if (none_found found) group_ids_error
      >> (read (λ _. all_children_of parent found)
          >> unassigning (children_policies session parent found)
              (or_wrap update_entity (repo.unassign_parent_group parent ids)))

  -- RemoveAllChildrenGroups
  unfoldable pub remove_all_children_groups : Session → String → Action W (Unit {0})
  remove_all_children_groups session id =
      or_wrap delete_policies_error (
        roles.policy.delete_filter (record no_policy {
          domain = session.domain_id;
          subject_type = "group";
          subject = id;
          relation = "parent_group";
          object_type = "group";
        }))
      >> or_wrap remove_entity (repo.unassign_all_children_groups id)

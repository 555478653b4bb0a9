-- ===== src/Tests/Groups.antt =====
-- The theorem on groups/service.go applied to a repository with two groups, one of which is disabled
-- and has a parent.
use supermq.Common.{refl, [], ◌∷◌}
use supermq.Errors.{ok}
use supermq.Groups.Data.{no_group, GroupWorld}
use supermq.Groups.Hierarchy.{add_children_groups}
use supermq.Groups.Adopting.{Adopts, add_children_groups-Adopts}
use supermq.Tests.RoleWorld.{Set, role_world, admin_session, nothing}

-- RetrieveByIDs finds the enabled group of the two.
abbrev pub two_groups : GroupWorld Set
two_groups = record {
  roles = role_world;
  repo = record {
    save = λ g w. (ok g, w);
    update = λ g w. (ok g, w);
    update_tags = λ g w. (ok g, w);
    change_status = λ g w. (ok g, w);
    retrieve_by_id = λ id w. ok (record no_group { id = id });
    retrieve_by_id_with_roles = λ id user w. ok (record no_group { id = id });
    retrieve_by_ids = λ pm ids w. ok (record no_group { id = "g1" } ∷ []);
    assign_parent_group = λ parent ids w. (ok tt, w);
    unassign_parent_group = λ parent ids w. (ok tt, w);
    unassign_all_children_groups = λ id w. (ok tt, w);
    remove = λ id w. (ok tt, w);
  };
  new_id = λ w. (ok "g3", w);
  unset_channels = λ id w. (ok tt, w);
  unset_clients = λ id w. (ok tt, w);
  assign_keeps = λ parent ids w r. refl;
  unassign_keeps = λ parent ids w r. refl;
}

add_children_groups_example :
    Adopts two_groups admin_session "g0"
      ("g1" ∷ "g2" ∷ [])
      nothing
      (add_children_groups two_groups admin_session "g0" ("g1" ∷ "g2" ∷ []) nothing)
add_children_groups_example =
    add_children_groups-Adopts two_groups admin_session "g0" ("g1" ∷ "g2" ∷ []) nothing

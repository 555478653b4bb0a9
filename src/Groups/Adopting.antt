-- ===== src/Groups/Adopting.antt =====
-- AddChildrenGroups of groups/service.go adds the policies of all of the children or of none.
use text.Mathlib.Text.{◌==◌}
use text.Mathlib.TextEquality.{eq_iff}
use supermq.Common.{
  ◌⊎◌, String, ◌≡◌, refl, ap, subst, Bool, true, false, inl, inr, List, [], ◌∷◌, All, if◌then◌else◌,
}
use supermq.Errors.{Err, Result, ok, err, wrap}
use supermq.Service.{
  ◌>>=◌, ◌>>◌, read, or_wrap, view_entity, update_entity, add_policies_error, rollback_tx_error,
  conflict,
}
use supermq.Service.Laws.{Ends, Ends-weaken}
use supermq.Policies.Atomic.{RollbackFailed, Unchanged, Fresh, Added, adding-AllOrNothing}
use supermq.Policies.{Policy, no_policy}
use supermq.Roles.Data.{Session}
use supermq.Groups.Manage.{group_parent_policy}
use supermq.Groups.Data.{Group, GroupWorld}
use supermq.Groups.Hierarchy.{
  group_have_parent, children_policies, all_orphans, no_limit, assigning, add_found,
  add_children_groups,
}

orphan_if :
    (b : Bool) (rest : Result (Unit {0})) (e : Err)
    → (if b then rest else err e) ≡ ok tt
    → (b ≡ true) × (rest ≡ ok tt)
orphan_if true rest e h = (refl, h)
orphan_if false rest e h = cc

orphans : (gs : List Group) → all_orphans gs ≡ ok tt → All (λ (g : Group). g.parent ≡ "") gs
unfolding all_orphans
orphans [] h = tt
orphans (g ∷ gs) h =
    let (here, there) =
      orphan_if (g.parent == "") (all_orphans gs) (wrap conflict group_have_parent) h in
    ((eq_iff g.parent "").0 here, orphans gs there)

-- That the group is the parent of each of the children.
abbrev pub parent_links : String → String → List Group → List Policy
parent_links domain parent [] = []
parent_links domain parent (g ∷ gs) =
    record no_policy {
      domain = domain;
      subject_type = "group";
      subject = parent;
      relation = "parent_group";
      object_type = "group";
      object = g.id;
    }
    ∷ parent_links domain parent gs

children_policies_lem :
    (session : Session) (parent : String) (gs : List Group)
    → children_policies session parent gs ≡ parent_links session.domain_id parent gs
children_policies_lem session parent [] = refl
children_policies_lem session parent (g ∷ gs) =
    ap (λ prs. group_parent_policy session.domain_id parent g.id ∷ prs)
      (children_policies_lem session parent gs)

module _ {W : Type 0} (world : GroupWorld W) (session : Session) (parent : String)
    (ids : List String) where
  open world use {roles, repo}

  -- All of the children that were found had no parent, and have the policies of one; or the
  -- policies are as before, unless the error says that they could not be taken back.
  abbrev pub Adopts : W → Result (Unit {0}) × W → Type 0
  Adopts w =
      Ends
        (λ _ w'.
          (found : List Group) × ((repo.retrieve_by_ids no_limit ids w ≡ ok found)
            × (All (λ (g : Group). g.parent ≡ "") found
                × (Fresh roles.policy (parent_links session.domain_id parent found) w
                    × Added roles.policy (parent_links session.domain_id parent found) w w'))))
        (λ e w'. Unchanged roles.policy w w' ⊎ RollbackFailed rollback_tx_error e)

  adopting :
      (found : List Group) (answer : Result (Unit {0})) (w : W)
      → repo.retrieve_by_ids no_limit ids w ≡ ok found
      → all_orphans found ≡ answer
      → Adopts w (
          (read (λ _. answer)
              >> assigning world
                  (children_policies session parent found)
                  (or_wrap update_entity (repo.assign_parent_group parent ids)))
            w)
  adopting found (err _) w f e = inl (λ r. refl)
  adopting found (ok _) w f e =
      let prs = children_policies session parent found in
      Ends-weaken (λ _ w'. Fresh roles.policy prs w × Added roles.policy prs w w') _
        (λ e w'.
          Unchanged roles.policy w w'
          ⊎ (RollbackFailed rollback_tx_error e × Added roles.policy prs w w'))
        _ (assigning world prs (or_wrap update_entity (repo.assign_parent_group parent ids)) w)
        (adding-AllOrNothing roles.policy prs add_policies_error rollback_tx_error
          (or_wrap update_entity (repo.assign_parent_group parent ids)) w
          (λ w1. world.assign_keeps parent ids w1))
        (λ _ w' h. (
          found,
          (
            f,
            (
              orphans found e,
              subst (λ l. Fresh roles.policy l w × Added roles.policy l w w')
                  (children_policies_lem session parent found) h,
            ),
          ),
        ))
        (λ _ w' h. elim h [ inl same ↦ inl same | inr failed ↦ inr failed.0 ])

  added_found :
      (found : Result (List Group)) (w : W)
      → repo.retrieve_by_ids no_limit ids w ≡ found
      → Adopts w
          ((or_wrap view_entity (read (λ _. found)) >>= add_found world session parent ids) w)
  added_found (err _) w e = inl (λ r. refl)
  added_found (ok []) w e = inl (λ r. refl)
  added_found (ok (g ∷ gs)) w e = adopting (g ∷ gs) (all_orphans (g ∷ gs)) w e refl

  -- If AddChildrenGroups succeeds, the groups that it found by the IDs had no parent, the policies that
  -- make the given group their parent were not there, and exactly these have been added. With an
  -- error the policies are as before, unless it says that they could not be taken back.
  pub add_children_groups-Adopts :
      (w : W) → Adopts w (add_children_groups world session parent ids w)
  unfolding add_children_groups
  add_children_groups-Adopts w = added_found (repo.retrieve_by_ids no_limit ids w) w refl

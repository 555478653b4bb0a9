-- ===== src/Roles/Cleanup.antt =====
-- RemoveEntitiesRoles of pkg/roles/provisionmanage.go: what is left of the policies.
use supermq.Common.{
  ◌≡◌, refl, ap, ◌∙◌, Bool, true, false, not, ◌&&◌, ◌||◌, String, List, [], ◌∷◌, ltb, length,
  if◌then◌else◌,
}
use supermq.Errors.{Result, ok, err}
use supermq.Service.{◌>>=◌, ◌>>◌, pure, read, or_wrap, delete_policies_error}
use supermq.Service.Laws.{Ends, >>=-Ends, Ends-weaken}
use supermq.Policies.{Policy, Relationship, listed, filter_matches}
use supermq.Policies.Atomic.{Unchanged, Deleted}
use supermq.Policies.Deleting.{
  NothingNew, Filtered, Unchanged→NothingNew, Deleted→NothingNew, Filtered→NothingNew, delete-Ends,
  delete_filter-Ends,
}
use supermq.Roles.Data.{RoleWorld, Provisioner, EntityActionRole, EntityMemberRole}
use supermq.Roles.Policy.{provisioned_policies}
use supermq.Roles.Provision.{
  remove_optional_error, remove_optional_filter_error, delete_filters, delete_optional,
  remove_found, remove_entities_roles,
}

-- Some of the filters matches.
abbrev pub any_filter : List Policy → Relationship → Bool
any_filter [] r = false
any_filter (f ∷ fs) r = filter_matches f r || any_filter fs r

not_or : (a b h : Bool) → (not b && (not a && h)) ≡ (not (a || b) && h)
not_or true true h = refl
not_or true false h = refl
not_or false b h = refl

and_false : (a : Bool) → (a && false) ≡ false
and_false true = refl
and_false false = refl

module _ {W : Type 0} (world : RoleWorld W) (p : Provisioner) where
  open world use {policy, repo}

  abbrev pub AllFiltered : List Policy → W → W → Type 0
  AllFiltered fs w w' =
      (r : Relationship) → policy.holds w' r ≡ (not (any_filter fs r) && policy.holds w r)

  delete_filters-Ends :
      (fs : List Policy) (w : W)
      → Ends
          (λ _ w'. AllFiltered fs w w')
          (λ _ w'. NothingNew policy w w')
          (delete_filters world p fs w)
  unfolding delete_filters
  delete_filters-Ends [] w = λ r. refl
  delete_filters-Ends (f ∷ fs) w =
      >>=-Ends (λ _ w'. Filtered policy f w w') (λ _ w'. Unchanged policy w w')
        (λ _ w'. AllFiltered (f ∷ fs) w w') (λ _ w'. NothingNew policy w w')
        (or_wrap remove_optional_filter_error (policy.delete_filter f) w)
        (λ _. delete_filters world p fs) w
        (delete_filter-Ends policy f remove_optional_filter_error w)
        (λ _ w1 gone.
          Ends-weaken (λ _ w'. AllFiltered fs w1 w') (λ _ w'. AllFiltered (f ∷ fs) w w')
            (λ _ w'. NothingNew policy w1 w') (λ _ w'. NothingNew policy w w')
            (delete_filters world p fs w1) (delete_filters-Ends fs w1)
            (λ _ w' rest r.
              rest r
              ∙ ap (λ h. not (any_filter fs r) && h) (gone r)
              ∙ not_or (filter_matches f r) (any_filter fs r) (policy.holds w r))
            (λ _ w' new r h. new r (Filtered→NothingNew policy f w w1 gone r h)))
        (λ _ w1 same. Unchanged→NothingNew policy w w1 same)

  -- What RemoveEntitiesRoles leaves of a relationship that may be held before.
  abbrev pub remaining :
      String
      → List EntityActionRole × List EntityMemberRole
      → List Policy
      → List Policy
      → Relationship
      → Bool
      → Bool
  remaining domain_id found filters optional r held =
      not (any_filter filters r)
      && (not (ltb 1 (length optional) && listed optional r)
          && (not (listed (provisioned_policies p domain_id found.0 found.1) r) && held))

  abbrev pub Remains :
      String
      → List EntityActionRole × List EntityMemberRole
      → List Policy
      → List Policy
      → W
      → W
      → Type 0
  Remains domain_id found filters optional w w' =
      (r : Relationship)
      → policy.holds w' r ≡ remaining domain_id found filters optional r (policy.holds w r)

  abbrev Optional : List Policy → Bool → W → W → Type 0
  Optional prs several w w' =
      (r : Relationship) → policy.holds w' r ≡ (not (several && listed prs r) && policy.holds w r)

  Optional-Ends :
      (prs : List Policy) (several : Bool) (w : W)
      → Ends
          (λ _ w'. Optional prs several w w')
          (λ _ w'. Unchanged policy w w')
          ((if several then or_wrap remove_optional_error (policy.delete prs) else pure tt) w)
  Optional-Ends prs true w = delete-Ends policy prs remove_optional_error w
  Optional-Ends prs false w = λ r. refl

  Optional-NothingNew :
      (prs : List Policy) (several : Bool) (w w' : W)
      → Optional prs several w w'
      → NothingNew policy w w'
  Optional-NothingNew prs several w w' dropped r h =
      dropped r
      ∙ ap (λ b. not (several && listed prs r) && b) h
      ∙ and_false (not (several && listed prs r))

  after_found :
      (domain_id : String) (found : List EntityActionRole × List EntityMemberRole)
      (filters optional : List Policy) (w : W)
      → Ends
          (λ _ w'. Remains domain_id found filters optional w w')
          (λ _ w'. NothingNew policy w w')
          (remove_found world p domain_id filters optional found w)
  after_found domain_id found filters optional w =
      let roles = provisioned_policies p domain_id found.0 found.1 in
      let several = ltb 1 (length optional) in
      >>=-Ends (λ _ w1. Deleted policy roles w w1) (λ _ w1. Unchanged policy w w1)
        (λ _ w'. Remains domain_id found filters optional w w') (λ _ w'. NothingNew policy w w')
        (or_wrap delete_policies_error (policy.delete roles) w)
        (λ _. delete_optional world p optional >> delete_filters world p filters) w
        (delete-Ends policy roles delete_policies_error w)
        (λ _ w1 gone.
          >>=-Ends (λ _ w2. Optional optional several w1 w2) (λ _ w2. Unchanged policy w1 w2)
            (λ _ w'. Remains domain_id found filters optional w w') (λ _ w'. NothingNew policy w w')
            (delete_optional world p optional w1) (λ _. delete_filters world p filters) w1
            (Optional-Ends optional several w1)
            (λ _ w2 dropped.
              Ends-weaken (λ _ w'. AllFiltered filters w2 w')
                (λ _ w'. Remains domain_id found filters optional w w')
                (λ _ w'. NothingNew policy w2 w') (λ _ w'. NothingNew policy w w')
                (delete_filters world p filters w2) (delete_filters-Ends filters w2)
                (λ _ w' filtered r.
                  filtered r
                  ∙ ap (λ h. not (any_filter filters r) && h)
                      (dropped r ∙ ap (λ h. not (several && listed optional r) && h) (gone r)))
                (λ _ w' new r h. new r (
                  Optional-NothingNew optional several w1 w2 dropped r
                    (Deleted→NothingNew policy roles w w1 gone r h))))
            (λ _ w2 same r h. same r ∙ Deleted→NothingNew policy roles w w1 gone r h))
        (λ _ w1 same. Unchanged→NothingNew policy w w1 same)

  found_end :
      (domain_id : String) (found : Result (List EntityActionRole × List EntityMemberRole))
      (filters optional : List Policy) (w : W)
      → Ends
          (λ _ w'.
            (pairs : List EntityActionRole × List EntityMemberRole) × (found ≡ ok pairs)
            × Remains domain_id pairs filters optional w w')
          (λ _ w'. NothingNew policy w w')
          ((read (λ _. found) >>= remove_found world p domain_id filters optional) w)
  found_end domain_id (err e) filters optional w = λ r h. h
  found_end domain_id (ok pairs) filters optional w =
      Ends-weaken _ _ _ (λ _ w'. NothingNew policy w w')
        (remove_found world p domain_id filters optional pairs w)
        (after_found domain_id pairs filters optional w) (λ _ w' left. (pairs, refl, left))
        (λ _ w' new. new)

  -- If RemoveEntitiesRoles returns without an error, a relationship is held exactly if it was
  -- before, and is no action or member of the entities' roles as the repository has them, matches
  -- none of the filters, and is not one of the optional policies where these are at least two. With
  -- an error no relationship is held that was not.
  pub remove_entities_roles-Ends :
      (domain_id : String) (entity_ids : List String) (filters optional : List Policy) (w : W)
      → Ends
          (λ _ w'.
            (pairs : List EntityActionRole × List EntityMemberRole) × (repo.retrieve_actions_members
                entity_ids w
              ≡ ok pairs)
            × Remains domain_id pairs filters optional w w')
          (λ _ w'. NothingNew policy w w')
          (remove_entities_roles world p domain_id entity_ids filters optional w)
  unfolding remove_entities_roles
  remove_entities_roles-Ends domain_id entity_ids filters optional w =
      found_end domain_id (repo.retrieve_actions_members entity_ids w) filters optional w

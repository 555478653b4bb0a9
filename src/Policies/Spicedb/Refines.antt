-- ===== src/Policies/Spicedb/Refines.antt =====
-- The service over SpiceDB (pkg/policies/spicedb/service.go) implements policies.Service.
use text.Mathlib.Text.{◌==◌, starts_with}
use supermq.Common.{
  ◌≡◌, refl, sym, ap, ◌∙◌, Bool, true, false, not, ◌&&◌, ◌||◌, Bool-cases, none, some, List, [],
  ◌∷◌, map, All, inl, inr, if◌then◌else◌,
}
use supermq.Errors.{Result, ok, err}
use supermq.Service.{◌>>=◌, ◌>>◌, fail_if, read}
use supermq.Service.Laws.{Ends}
use supermq.Policies.{
  Policy, Relationship, to_relationship, same, listed, field_matches, filter_matches,
}
use supermq.Policies.Implements.{Same, Adds, Deletes, Filters, Implements}
use supermq.Policies.Spicedb.{Reply, or_handled}
use supermq.Policies.Spicedb.Data.{
  create, delete, Precondition, apply, is_create, matches, subject_matches, SpiceDb,
}
use supermq.Policies.Spicedb.Validation.{collect, validate_all}
use supermq.Policies.Spicedb.Writes.{
  add_failed, remove_failed, no_policies, update_of, to_filter, is_none, sending, add_policies,
  delete_policies, delete_policy_filter,
}

apply_if : (test l h : Bool) → (if test then true else (l || h)) ≡ ((test || l) || h)
apply_if true l h = refl
apply_if false l h = refl

apply-creates :
    (prs : List Policy) (held : Relationship → Bool) (r : Relationship)
    → apply (map (update_of create) prs) held r ≡ (listed prs r || held r)
unfolding listed
apply-creates [] held r = refl
apply-creates (p ∷ ps) held r =
    ap (λ v. if same (to_relationship p) r then true else v) (apply-creates ps held r)
    ∙ apply_if (same (to_relationship p) r) (listed ps r) (held r)

unapply_if : (test l h : Bool) → (if test then false else (not l && h)) ≡ (not (test || l) && h)
unapply_if true l h = refl
unapply_if false l h = refl

apply-deletes :
    (prs : List Policy) (held : Relationship → Bool) (r : Relationship)
    → apply (map (update_of delete) prs) held r ≡ (not (listed prs r) && held r)
unfolding listed
apply-deletes [] held r = refl
apply-deletes (p ∷ ps) held r =
    ap (λ v. if same (to_relationship p) r then false else v) (apply-deletes ps held r)
    ∙ unapply_if (same (to_relationship p) r) (listed ps r) (held r)

subject_if :
    (a b : Bool) (f : Policy) (r : Relationship)
    → subject_matches
        (if a
          then none
          else some (record {
            subject_type = f.subject_type;
            subject_id = f.subject;
            relation = if b then none else some f.subject_relation;
          }))
        r
      ≡ (a
          || (f.subject_type == r.subject_type
              && (field_matches f.subject r.subject
                  && (b || f.subject_relation == r.subject_relation))))
subject_if true b f r = refl
subject_if false true f r = refl
subject_if false false f r = refl

-- The filter that is sent matches what the policy's filter is to match.
matches-to_filter : (f : Policy) (r : Relationship) → matches (to_filter f) r ≡ filter_matches f r
unfolding filter_matches
matches-to_filter f r =
    ap
      (λ b.
        field_matches f.object_type r.resource_type
        && (field_matches f.object r.resource
            && (starts_with r.resource f.object_prefix
                && (field_matches f.relation r.relation && b))))
      (subject_if (f.subject_type == "") (f.subject_relation == "") f r)

module _ {W : Type 0} (db : SpiceDb W) where
  new_ones :
      (prs : List Policy) (w : W)
      → All
          (λ u.
            is_create u.operation ≡ true
            → (r : Relationship) → same u.relationship r ≡ true
            → db.holds w r ≡ false)
          (map (update_of create) prs)
      → (r : Relationship) → listed prs r ≡ true
      → db.holds w r ≡ false
  unfolding listed
  new_ones [] w h r l = cc
  new_ones (p ∷ ps) w (here, there) r l = elim (Bool-cases (same (to_relationship p) r)) [
    | inl e ↦ here refl r e
    | inr e ↦ new_ones ps w there r (ap (λ b. b || listed ps r) (sym e) ∙ l)
  ]

  written :
      (prs : List Policy) (cs : List Precondition) (w : W) (end : Reply (Unit {0}) × W)
      → end ≡ db.write (map (update_of create) prs) cs w
      → Ends (λ _. Adds db.holds prs w) (λ _. Same db.holds w) (or_handled add_failed end.0, end.1)
  written prs cs w (inl e, w') same_end = λ r.
      ap (λ z. db.holds z.1 r) same_end
      ∙ db.write_fails (map (update_of create) prs) cs w r e (ap (λ z. z.0) (sym same_end))
  written prs cs w (inr _, w') same_end =
      let done = ap (λ z. z.0) (sym same_end) in
      (
        new_ones prs w (db.write_creates (map (update_of create) prs) cs w done),
        λ r.
            ap (λ z. db.holds z.1 r) same_end
            ∙ db.write_applies (map (update_of create) prs) cs w r done
            ∙ apply-creates prs (db.holds w) r,
      )

  collected :
      (prs : List Policy) (preconds : Result (List Precondition)) (w : W)
      → Ends
          (λ _. Adds db.holds prs w)
          (λ _. Same db.holds w)
          ((read (λ _. preconds) >>= λ cs.
              fail_if (is_none prs) no_policies
              >> sending db add_failed (db.write (map (update_of create) prs) cs))
            w)
  collected prs (err _) w = λ r. refl
  collected [] (ok cs) w = λ r. refl
  collected (p ∷ ps) (ok cs) w =
      written (p ∷ ps) cs w (db.write (map (update_of create) (p ∷ ps)) cs w) refl

  deleted :
      (prs : List Policy) (w : W) (end : Reply (Unit {0}) × W)
      → end ≡ db.write (map (update_of delete) prs) [] w
      → Ends
          (λ _. Deletes db.holds prs w)
          (λ _. Same db.holds w)
          (or_handled remove_failed end.0, end.1)
  deleted prs w (inl e, w') same_end = λ r.
      ap (λ z. db.holds z.1 r) same_end
      ∙ db.write_fails (map (update_of delete) prs) [] w r e (ap (λ z. z.0) (sym same_end))
  deleted prs w (inr _, w') same_end = λ r.
      ap (λ z. db.holds z.1 r) same_end
      ∙ db.write_applies (map (update_of delete) prs) [] w r (ap (λ z. z.0) (sym same_end))
      ∙ apply-deletes prs (db.holds w) r

  validated :
      (prs : List Policy) (valid : Result (Unit {0})) (w : W)
      → Ends
          (λ _. Deletes db.holds prs w)
          (λ _. Same db.holds w)
          ((read (λ _. valid)
              >> (fail_if (is_none prs) no_policies
                  >> sending db remove_failed (db.write (map (update_of delete) prs) [])))
            w)
  validated prs (err _) w = λ r. refl
  validated [] (ok _) w = λ r. refl
  validated (p ∷ ps) (ok _) w =
      deleted (p ∷ ps) w (db.write (map (update_of delete) (p ∷ ps)) [] w) refl

  filtered :
      (f : Policy) (w : W) (end : Reply (Unit {0}) × W)
      → end ≡ db.delete_relationships (to_filter f) w
      → Ends
          (λ _. Filters db.holds f w)
          (λ _. Same db.holds w)
          (or_handled remove_failed end.0, end.1)
  filtered f w (inl e, w') same_end = λ r.
      ap (λ z. db.holds z.1 r) same_end
      ∙ db.delete_fails (to_filter f) w r e (ap (λ z. z.0) (sym same_end))
  filtered f w (inr _, w') same_end = λ r.
      ap (λ z. db.holds z.1 r) same_end
      ∙ db.delete_applies (to_filter f) w r (ap (λ z. z.0) (sym same_end))
      ∙ ap (λ m. not m && db.holds w r) (matches-to_filter f r)

  -- AddPolicies, DeletePolicies and DeletePolicyFilter over SpiceDB implement the policy service:
  -- each does its write as a whole, with policies that were not there if it adds, or ends in an
  -- error and changes no relationship.
  pub spicedb-Implements :
      Implements db.holds (add_policies db) (delete_policies db) (delete_policy_filter db)
  unfolding add_policies delete_policies delete_policy_filter
  spicedb-Implements = record {
    adds = λ prs w. collected prs (collect db prs w) w;
    deletes = λ prs w. validated prs (validate_all prs) w;
    filters = λ f w. filtered f w (db.delete_relationships (to_filter f) w) refl;
  }

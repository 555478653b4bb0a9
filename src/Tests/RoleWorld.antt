-- ===== src/Tests/RoleWorld.antt =====
-- The roles of pkg/roles over a policy store that is a set of relationships, and a repository with
-- one role.
use text.Mathlib.Text.{◌==◌}
use text.Mathlib.TextEquality.{eq_iff}
use supermq.Common.{
  ◌⊎◌, inl, inr, ◌≡◌, refl, sym, ap, ◌∙◌, Bool, true, false, not, ◌&&◌, ◌||◌, none, some, List, [],
  ◌∷◌, if◌then◌else◌,
}
use supermq.Errors.{Err, Result, ok, err, new, service}
use supermq.Policies.{
  Policy, Relationship, to_relationship, same, listed, filter_matches, PolicyStore,
}
use supermq.Roles.Data.{
  Role, EntityActionRole, EntityMemberRole, Session, Repository, RoleWorld, Provisioner,
}

abbrev pub Set : Type 0
Set = Relationship → Bool

pub split : (a b : Bool) → (a && b) ≡ true → (a ≡ true) × (b ≡ true)
split true b h = (refl, h)
split false b h = cc

same-eq : (a b : Relationship) → same a b ≡ true → a ≡ b
unfolding same
same-eq a b h =
    let (t, h1) = split (a.resource_type == b.resource_type) _ h in
    let (o, h2) = split (a.resource == b.resource) _ h1 in
    let (n, h3) = split (a.relation == b.relation) _ h2 in
    let (u, h4) = split (a.subject_type == b.subject_type) _ h3 in
    let (s, v) = split (a.subject == b.subject) _ h4 in
    λ i. record {
      resource_type = (eq_iff a.resource_type b.resource_type).0 t i;
      resource = (eq_iff a.resource b.resource).0 o i;
      relation = (eq_iff a.relation b.relation).0 n i;
      subject_type = (eq_iff a.subject_type b.subject_type).0 u i;
      subject = (eq_iff a.subject b.subject).0 s i;
      subject_relation = (eq_iff a.subject_relation b.subject_relation).0 v i;
    }

abbrev pub any_held : List Policy → Set → Bool
any_held [] w = false
any_held (p ∷ ps) w = w (to_relationship p) || any_held ps w

pub neither : (a b : Bool) → (a || b) ≡ false → (a ≡ false) × (b ≡ false)
neither false b h = (refl, h)
neither true b h = cc

pub either : (a b : Bool) → (a || b) ≡ true → (a ≡ true) ⊎ (b ≡ true)
either true b h = inl refl
either false b h = inr h

none_held :
    (ps : List Policy) (w : Set) (r : Relationship)
    → any_held ps w ≡ false
    → listed ps r ≡ true
    → w r ≡ false
unfolding listed
none_held [] w r free h = cc
none_held (p ∷ ps) w r free h =
    let (here, there) = neither (w (to_relationship p)) (any_held ps w) free in
    elim (either (same (to_relationship p) r) (listed ps r) h) [
      | inl s ↦ ap w (sym (same-eq (to_relationship p) r s)) ∙ here
      | inr l ↦ none_held ps w r there l
    ]

abbrev pub exists_error : Err
exists_error = new (some service) "entity already exists"

abbrev pub added : Bool → List Policy → Set → Result (Unit {0}) × Set
added true ps w = (err exists_error, w)
added false ps w = (ok tt, λ r. listed ps r || w r)

pub added_creates :
    (held : Bool) (ps : List Policy) (w : Set) (r : Relationship)
    → any_held ps w ≡ held
    → (added held ps w).0 ≡ ok tt
    → listed ps r ≡ true
    → w r ≡ false
added_creates true ps w r e h l = cc
added_creates false ps w r e h l = none_held ps w r e l

pub added_adds :
    (held : Bool) (ps : List Policy) (w : Set) (r : Relationship)
    → (added held ps w).0 ≡ ok tt
    → (added held ps w).1 r ≡ (listed ps r || w r)
added_adds true ps w r h = cc
added_adds false ps w r h = refl

pub added_fails :
    (held : Bool) (ps : List Policy) (w : Set) (r : Relationship) (e : Err)
    → (added held ps w).0 ≡ err e
    → (added held ps w).1 r ≡ w r
added_fails true ps w r e h = refl
added_fails false ps w r e h = cc

pub no_failure : (e : Err) (a b : Bool) → ◌≡◌ {A = Result (Unit {0})} (ok tt) (err e) → a ≡ b
no_failure e a b h = cc

abbrev pub set_store : PolicyStore Set
set_store = record {
  holds = λ w r. w r;
  add = λ ps w. added (any_held ps w) ps w;
  delete = λ ps w. (ok tt, λ r. not (listed ps r) && w r);
  delete_filter = λ f w. (ok tt, λ r. not (filter_matches f r) && w r);
  add_creates = λ ps w r h l. added_creates (any_held ps w) ps w r refl h l;
  add_adds = λ ps w r h. added_adds (any_held ps w) ps w r h;
  add_fails = λ ps w r e h. added_fails (any_held ps w) ps w r e h;
  delete_deletes = λ ps w r h. refl;
  delete_fails = λ ps w r e h. no_failure e _ _ h;
  filter_deletes = λ f w r h. refl;
  filter_fails = λ f w r e h. no_failure e _ _ h;
}

-- The set as one field of a larger world.
abbrev pub lens_store :
    {W : Type 0} (get : W → Set) (put : Set → W → W)
    → ((s : Set) (w : W) → get (put s w) ≡ s)
    → PolicyStore W
lens_store get put law = record {
  holds = λ w r. get w r;
  add = λ ps w. let (e, s) = added (any_held ps (get w)) ps (get w) in (e, put s w);
  delete = λ ps w. (ok tt, put (λ r. not (listed ps r) && get w r) w);
  delete_filter = λ f w. (ok tt, put (λ r. not (filter_matches f r) && get w r) w);
  add_creates = λ ps w r h l. added_creates (any_held ps (get w)) ps (get w) r refl h l;
  add_adds = λ ps w r h. ap (λ s. s r) (law _ w) ∙ added_adds (any_held ps (get w)) ps (get w) r h;
  add_fails =
      λ ps w r e h. ap (λ s. s r) (law _ w) ∙ added_fails (any_held ps (get w)) ps (get w) r e h;
  delete_deletes = λ ps w r h. ap (λ s. s r) (law _ w);
  delete_fails = λ ps w r e h. no_failure e _ _ h;
  filter_deletes = λ f w r h. ap (λ s. s r) (law _ w);
  filter_fails = λ f w r e h. no_failure e _ _ h;
}

abbrev pub stored_role : Role
stored_role = record {
  id = "domain_r1";
  name = "admin";
  entity_id = "d1";
  created_by = "u1";
  created_at = 1;
  updated_by = "";
  updated_at = 0;
}

abbrev pub read_action : EntityActionRole
read_action = record { entity_id = "d1"; action = "read"; role_id = "domain_r1" }

abbrev pub u2_member : EntityMemberRole
u2_member = record { entity_id = "d1"; member_id = "u2"; role_id = "domain_r1" }

abbrev pub one_role : {W : Type 0} → Repository W
one_role = record {
  add_roles = λ rs w. (ok rs, w);
  remove_roles = λ ids w. (ok tt, w);
  update_role = λ ro w. (ok ro, w);
  retrieve_entity_role = λ entity_id role_id w.
      if role_id == "domain_r1" then ok stored_role else err (new none "not found");
  retrieve_all_roles = λ entity_id limit offset w.
      ok (record { total = 1; offset = offset; limit = limit; roles = stored_role ∷ [] });
  add_actions = λ ro acts w. (ok acts, w);
  list_actions = λ id w. ok ("read" ∷ []);
  check_actions_exists = λ id acts w. ok true;
  remove_actions = λ ro acts w. (ok tt, w);
  remove_all_actions = λ ro w. (ok tt, w);
  add_members = λ ro ms w. (ok ms, w);
  list_members = λ id limit offset w.
      ok (record { total = 1; offset = offset; limit = limit; members = "u2" ∷ [] });
  check_members_exists = λ id ms w. ok true;
  remove_members = λ ro ms w. (ok tt, w);
  remove_all_members = λ ro w. (ok tt, w);
  retrieve_actions_members = λ ids w. ok (read_action ∷ [], u2_member ∷ []);
  remove_entity_members = λ entity_id ms w. (ok tt, w);
  remove_member_from_all_roles = λ member w. (ok tt, w);
}

abbrev pub role_world : RoleWorld Set
role_world = record {
  policy = set_store;
  repo = one_role;
  new_sid = λ w. (ok "r2", w);
  now = λ w. 7;
  sid_keeps = λ w r. refl;
  add_roles_keeps = λ rs w r. refl;
  remove_roles_keeps = λ ids w r. refl;
  add_actions_keeps = λ ro acts w r. refl;
  remove_actions_keeps = λ ro acts w r. refl;
  remove_all_actions_keeps = λ ro w r. refl;
  add_members_keeps = λ ro ms w r. refl;
  remove_members_keeps = λ ro ms w r. refl;
  remove_all_members_keeps = λ ro w r. refl;
}

abbrev pub domain_roles : Provisioner
domain_roles = record {
  entity_type = "domain";
  actions = "read" ∷ "update" ∷ [];
  built_in_roles = ("admin", "read" ∷ "update" ∷ []) ∷ [];
}

abbrev pub admin_session : Session
admin_session = record {
  user_id = "u1";
  domain_id = "d1";
  domain_user_id = "d1_u1";
  super_admin = false;
}

abbrev pub nothing : Set
nothing r = false

-- ===== src/Policies/Spicedb/Guards.antt =====
-- What AddPolicies of pkg/policies/spicedb/service.go makes sure of before it adds policies.
use text.Mathlib.Text.{◌==◌}
use text.Mathlib.TextEquality.{eq_iff}
use supermq.Common.{
  ◌≡◌, String, refl, sym, ap, ◌∙◌, subst, Bool, true, false, ◌&&◌, List, [], ◌∷◌, ◌++◌, map, ◌⊎◌,
  All, All-split, inl, inr, if◌then◌else◌,
}
use supermq.Errors.{Result, ok, err}
use supermq.Service.{◌>>=◌, ◌>>◌, fail_if, read}
use supermq.Service.Laws.{Ends}
use supermq.Policies.{Policy}
use supermq.Policies.Spicedb.{Reply, or_handled}
use supermq.Policies.Spicedb.Data.{
  create, Precondition, Satisfied, SpiceDb, Permissionship, has_permission, named, unnamed,
}
use supermq.Policies.Spicedb.Between.{link, own_field, unmatched, matched}
use supermq.Policies.Spicedb.Preconditions.{
  between, must, must_not, in_domain, is_ok, check_of, check_answer, super_admin, subject_object,
  user_object_preconditions, preconditions_if, check_policy, add_policy_pre_condition,
}
use supermq.Policies.Spicedb.Writes.{
  add_failed, no_policies, update_of, is_none, sending, add_policies,
}
use supermq.Policies.Spicedb.Validation.{collect}
use supermq.Policies.Spicedb.Collected.{Guarded, collect_guards}

not_group : (s : String) → (s == "client") ≡ true → (s == "group") ≡ false
not_group s h = ap (λ t. t == "group") ((eq_iff s "client").0 h)

second_case :
    {A : Type 0} (u g c : Bool) (x y z : A)
    → (u && c) ≡ true
    → (c ≡ true → g ≡ false)
    → (if u && g then x else if u && c then y else z) ≡ y
second_case true true true x y z h k = ap (λ b. if b then x else y) (k refl)
second_case true true false x y z h k = cc
second_case true false true x y z h k = refl
second_case true false false x y z h k = cc
second_case false true true x y z h k = cc
second_case false true false x y z h k = cc
second_case false false true x y z h k = cc
second_case false false false x y z h k = cc

ok_eq : (x y : List Precondition) → ◌≡◌ {A = Result (List Precondition)} (ok x) (ok y) → x ≡ y
ok_eq x y h = cc

-- What addPolicyPreCondition asks for between a user and a client.
client_preconditions :
    (b : Bool) (pr : Policy)
    → subject_object pr "user" "client" ≡ true
    → preconditions_if b pr
      ≡ ok (user_object_preconditions b (pr.object_kind == "new_client") "client" pr)
unfolding preconditions_if
client_preconditions b pr h =
    second_case (pr.subject_type == "user") (pr.object_type == "group") (pr.object_type == "client")
      _ _ _ h (not_group pr.object_type)

granted :
    (reply : Reply Permissionship) → is_ok (check_answer reply) ≡ true → reply ≡ inr has_permission
granted (inl e) h = cc
granted (inr has_permission) h = refl
granted (inr (named reason)) h = cc
granted (inr unnamed) h = cc

both : (a b : Bool) → (a && b) ≡ true → a ≡ true
both true b h = refl
both false b h = cc

module _ {W : Type 0} (db : SpiceDb W) where
  -- The subject has no relation with the resource.
  abbrev pub Unrelated : W → String → String → String → String → Type 0
  Unrelated w resource_type resource subject_type subject =
      (relation subject_relation : String)
      → db.holds w (link resource_type resource relation subject_type subject subject_relation)
        ≡ false

  -- The subject has some relation with the resource.
  abbrev pub Related : W → String → String → String → String → Type 0
  Related w resource_type resource subject_type subject =
      (relation : String) × (subject_relation : String) × (db.holds w
          (link resource_type resource relation subject_type subject subject_relation)
        ≡ true)

  -- The user has the permission admin of the platform.
  abbrev pub Administers : W → String → Type 0
  Administers w user =
      db.check_permission
        (record {
          resource_type = "platform";
          resource = "supermq";
          permission = "admin";
          subject_type = "user";
          subject = user;
          subject_relation = "";
        })
        w
      ≡ inr has_permission

  -- A new client is in no domain; another is in this one.
  abbrev pub Placed : W → Bool → String → String → Type 0
  Placed w true client domain =
      (d subject_relation : String)
      → db.holds w (link "client" client "domain" "domain" d subject_relation) ≡ false
  Placed w false client domain =
      (subject_relation : String) × (db.holds w
          (link "client" client "domain" "domain" domain subject_relation)
        ≡ true)

  abbrev pub ClientOfDomain : W → Policy → Type 0
  ClientOfDomain w pr =
      Unrelated w "client" pr.object "user" pr.subject
      × (Administers w pr.subject ⊎ Related w "domain" pr.domain "user" pr.subject)
      × Placed w (pr.object_kind == "new_client") pr.object pr.domain

  client-Placed :
      (w : W) (pr : Policy) (is_new : Bool)
      → (pr.object == "") ≡ false
      → (pr.domain == "") ≡ false
      → Satisfied (db.holds w) (in_domain is_new "client" pr)
      → Placed w is_new pr.object pr.domain
  client-Placed w pr true named_object named_domain absent = λ d subject_relation.
      unmatched (db.holds w) "client" pr.object "domain" "domain" "domain" "" d subject_relation
        absent refl refl
  client-Placed w pr false named_object named_domain present =
      let (relation, subject_relation, r, holding) =
        matched (db.holds w) "client" pr.object "domain" "domain" pr.domain refl named_object
          named_domain present in
      (
        subject_relation,
        ap (λ t. db.holds w (link "client" pr.object t "domain" pr.domain subject_relation))
              ((eq_iff "domain" relation).0 r)
            ∙ holding,
      )

  administers :
      (w : W) (pr : Policy)
      → pr.subject_type ≡ "user"
      → is_ok (check_policy db (super_admin pr) w) ≡ true
      → Administers w pr.subject
  unfolding check_policy
  administers w pr user h =
      ap (λ t. db.check_permission (record (check_of (super_admin pr)) { subject_type = t }) w)
        (sym user)
      ∙ granted (db.check_permission (check_of (super_admin pr)) w) h

  Satisfied-parts :
      (b : Bool) (first member last : Precondition) (w : W)
      → All (Satisfied (db.holds w)) (first ∷ ((if b then [] else member ∷ []) ++ last ∷ []))
      → Satisfied (db.holds w) first
        × (((b ≡ true) ⊎ Satisfied (db.holds w) member) × Satisfied (db.holds w) last)
  Satisfied-parts true first member last w (here, (there, _)) = (here, (inl refl, there))
  Satisfied-parts false first member last w (here, (second, (third, _))) =
      (here, (inr second, third))

  Guarded-client :
      (w : W) (pr : Policy)
      → Guarded db w pr
      → subject_object pr "user" "client" ≡ true
      → (pr.object == "") ≡ false
      → (pr.subject == "") ≡ false
      → (pr.domain == "") ≡ false
      → ClientOfDomain w pr
  unfolding add_policy_pre_condition
  Guarded-client w pr (_, (cs, e, sat)) h named_object named_subject named_domain =
      let is_admin = is_ok (check_policy db (super_admin pr) w) in
      let (unrelated, (member, placed)) =
        Satisfied-parts is_admin (must_not (between "client" pr.object "" "user" pr.subject))
          (must (between "domain" pr.domain "" "user" pr.subject))
          (in_domain (pr.object_kind == "new_client") "client" pr) w
          (subst (All (Satisfied (db.holds w)))
            (ok_eq _ _ (sym e ∙ client_preconditions is_admin pr h)) sat) in
      let user = (eq_iff pr.subject_type "user").0 (both _ _ h) in
      (
        λ relation subject_relation.
            unmatched (db.holds w) "client" pr.object "" relation "user" pr.subject pr.subject
              subject_relation unrelated refl (own_field pr.subject),
        elim member [
          | inl admin ↦ inl (administers w pr user admin)
          | inr present ↦
              let (relation, subject_relation, _, holding) =
                matched (db.holds w) "domain" pr.domain "" "user" pr.subject refl named_domain
                  named_subject present in
              inr (relation, subject_relation, holding)
        ],
        client-Placed w pr (pr.object_kind == "new_client") named_object named_domain placed,
      )

  abbrev AllGuarded : List Policy → W → Result (Unit {0}) × W → Type 0
  AllGuarded prs w = Ends (λ _ _. All (Guarded db w) prs) (λ _ _. Unit)

  sent_guards :
      (prs : List Policy) (cs : List Precondition) (w : W) (end : Reply (Unit {0}) × W)
      → collect db prs w ≡ ok cs
      → end ≡ db.write (map (update_of create) prs) cs w
      → AllGuarded prs w (or_handled add_failed end.0, end.1)
  sent_guards prs cs w (inl _, w') c e = tt
  sent_guards prs cs w (inr _, w') c e =
      collect_guards db prs cs w c
        (db.write_requires (map (update_of create) prs) cs w (ap (λ z. z.0) (sym e)))

  end_guards :
      (prs : List Policy) (preconds : Result (List Precondition)) (w : W)
      → collect db prs w ≡ preconds
      → AllGuarded prs w (
          (read (λ _. preconds) >>= λ cs.
          fail_if (is_none prs) no_policies
          >> sending db add_failed (db.write (map (update_of create) prs) cs))
            w)
  end_guards prs (err _) w c = tt
  end_guards [] (ok cs) w c = tt
  end_guards (p ∷ ps) (ok cs) w c =
      sent_guards (p ∷ ps) cs w (db.write (map (update_of create) (p ∷ ps)) cs w) c refl

  Guarded-end :
      (prs : List Policy) (w : W) (end : Result (Unit {0}) × W)
      → AllGuarded prs w end
      → end.0 ≡ ok tt
      → All (Guarded db w) prs
  Guarded-end prs w (ok _, w') h e = h
  Guarded-end prs w (err _, w') h e = cc

  -- When AddPolicies succeeds with a policy between a user and a client among the others, both and
  -- the domain of the policy not empty: no relationship related the user to the client before; the
  -- user had the permission admin of the platform, or some relation with the domain; and the client
  -- had the relation domain with that domain, or with none if the policy calls it a new client.
  pub add_policies-ClientOfDomain :
      (before after : List Policy) (pr : Policy) (w : W)
      → (add_policies db (before ++ pr ∷ after) w).0 ≡ ok tt
      → subject_object pr "user" "client" ≡ true
      → (pr.object == "") ≡ false
      → (pr.subject == "") ≡ false
      → (pr.domain == "") ≡ false
      → ClientOfDomain w pr
  unfolding add_policies
  add_policies-ClientOfDomain before after pr w done h named_object named_subject named_domain =
      let prs = before ++ pr ∷ after in
      let all =
        Guarded-end prs w (add_policies db prs w) (end_guards prs (collect db prs w) w refl) done in
      Guarded-client w pr (All-split (Guarded db w) before (pr ∷ after) all).1.0 h named_object
        named_subject named_domain

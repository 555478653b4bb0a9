-- ===== src/Roles/Plans.antt =====
-- What the loops of AddNewEntitiesRoles in pkg/roles/provisionmanage.go plan: the policies are
-- those of the roles that it saves.
use Prim.Native.String.{◌++◌ as join}
use mathlib.Core.List.{map-append}
use supermq.Common.{
  ℕ, ◌≡◌, refl, sym, ap, ◌∙◌, Option, none, some, String, List, [], ◌∷◌, ◌++◌, map, All, All-append,
}
use supermq.Errors.{Result, ok, err}
use supermq.Service.{◌>>=◌, ◌>>◌, pure, read, or_wrap, create_entity, malformed_entity}
use supermq.Service.Laws.{Returns, >>=-Returns}
use supermq.Policies.{Policy}
use supermq.Roles.Data.{RoleProvision, RoleWorld, Provisioner}
use supermq.Roles.Policy.{validate_actions, built_in_role_actions, action_policies, member_policies}
use supermq.Roles.Provision.{
  Plan, empty_plan, plan_role, plan_granted, plan_named, plan_roles, plan_entities, or_missing_role,
  role_plan, join_plans,
}

-- A role that is asked for: who creates it, its entity, its name and its members.
abbrev pub Asked : Type 0
Asked = String × String × String × List String

abbrev pub asked_of : RoleProvision → Asked
asked_of rp = (rp.role.created_by, rp.role.entity_id, rp.role.name, rp.optional_members)

-- Each of the built-in roles that are asked for, for an entity.
abbrev pub asked_roles : String → String → List (String × List String) → List Asked
asked_roles user_id entity_id [] = []
asked_roles user_id entity_id ((name, members) ∷ rest) =
    (user_id, entity_id, name, members) ∷ asked_roles user_id entity_id rest

-- And for each of the entities.
abbrev pub asked_entities : String → List String → List (String × List String) → List Asked
asked_entities user_id [] roles = []
asked_entities user_id (entity_id ∷ rest) roles =
    asked_roles user_id entity_id roles ++ asked_entities user_id rest roles

module _ (p : Provisioner) (domain_id : String) where
  -- The policies of roles as they are saved: each of its actions is granted to the members of the
  -- role on its entity, and each of its members is a member of the role in the domain.
  abbrev pub policies_of : List RoleProvision → List Policy
  policies_of [] = []
  policies_of (rp ∷ rps) =
      (action_policies p.entity_type rp.role.id rp.role.entity_id rp.optional_actions
        ++ member_policies domain_id rp.role.id rp.optional_members)
      ++ policies_of rps

  -- A role has an ID of the entity type, and the actions of the built-in role of its name, all of
  -- them allowed.
  abbrev pub IsBuiltIn : RoleProvision → Type 0
  IsBuiltIn rp =
      ((sid : String) × (rp.role.id ≡ join p.entity_type (join "_" sid)))
      × (built_in_role_actions p.built_in_roles rp.role.name ≡ some rp.optional_actions)
      × (validate_actions p.actions rp.optional_actions ≡ ok tt)

  -- A plan of the roles that are asked for.
  pub record IsPlan (wanted : List Asked) (plan : Plan) : Type 0 where
    pub asks : map asked_of plan.provisions ≡ wanted
    pub granted : plan.policies ≡ policies_of plan.provisions
    pub built_in : All IsBuiltIn plan.provisions

  append_assoc : {A : Type 0} (xs ys zs : List A) → ((xs ++ ys) ++ zs) ≡ (xs ++ (ys ++ zs))
  append_assoc [] ys zs = refl
  append_assoc (x ∷ xs) ys zs = ap (λ l. x ∷ l) (append_assoc xs ys zs)

  policies_of-append :
      (a b : List RoleProvision) → policies_of (a ++ b) ≡ (policies_of a ++ policies_of b)
  policies_of-append [] b = refl
  policies_of-append (rp ∷ a) b =
      ap
        (λ l.
          (action_policies p.entity_type rp.role.id rp.role.entity_id rp.optional_actions
            ++ member_policies domain_id rp.role.id rp.optional_members)
          ++ l)
        (policies_of-append a b)
      ∙ sym (append_assoc _ (policies_of a) (policies_of b))

  join_plans-IsPlan :
      (xs ys : List Asked) (a b : Plan)
      → IsPlan xs a
      → IsPlan ys b
      → IsPlan (xs ++ ys) (join_plans a b)
  join_plans-IsPlan xs ys a b h k = record {
    asks =
        map-append asked_of a.provisions b.provisions
        ∙ ap (λ l. l ++ map asked_of b.provisions) h.asks
        ∙ ap (λ l. xs ++ l) k.asks;
    granted =
        ap (λ l. l ++ b.policies) h.granted
        ∙ ap (λ l. policies_of a.provisions ++ l) k.granted
        ∙ sym (policies_of-append a.provisions b.provisions);
    built_in = All-append IsBuiltIn a.provisions b.provisions h.built_in k.built_in;
  }

  append_nil : {A : Type 0} (xs : List A) → (xs ++ []) ≡ xs
  append_nil [] = refl
  append_nil (x ∷ xs) = ap (λ l. x ∷ l) (append_nil xs)

  empty-IsPlan : IsPlan [] empty_plan
  empty-IsPlan = record { asks = refl; granted = refl; built_in = tt }

  role_plan-IsPlan :
      (user_id entity_id sid name : String) (acts members : List String) (time : ℕ)
      → built_in_role_actions p.built_in_roles name ≡ some acts
      → validate_actions p.actions acts ≡ ok tt
      → IsPlan ((user_id, entity_id, name, members) ∷ []) (
          role_plan p domain_id user_id entity_id
            (join p.entity_type (join "_" sid))
            name
            acts
            members
            time)
  role_plan-IsPlan user_id entity_id sid name acts members time found valid = record {
    asks = refl;
    granted = sym (append_nil _);
    built_in = (((sid, refl), found, valid), tt);
  }

  module _ {W : Type 0} (world : RoleWorld W) (user_id : String) where
    validated-IsPlan :
        (entity_id sid name : String) (acts members : List String) (valid : Result (Unit {0}))
        (w : W)
        → built_in_role_actions p.built_in_roles name ≡ some acts
        → valid ≡ validate_actions p.actions acts
        → Returns (IsPlan ((user_id, entity_id, name, members) ∷ [])) (
            (or_wrap malformed_entity (read (λ _. valid)) >> λ w1. (
              ok (
                  role_plan p domain_id user_id entity_id
                    (join p.entity_type (join "_" sid))
                    name
                    acts
                    members
                    (world.now w1)),
              w1,
            ))
              w)
    validated-IsPlan entity_id sid name acts members (ok _) w found valid =
        role_plan-IsPlan user_id entity_id sid name acts members (world.now w) found (sym valid)
    validated-IsPlan entity_id sid name acts members (err _) w found valid = tt

    named-IsPlan :
        (entity_id name : String) (acts members : List String) (sid : Result String × W) (w : W)
        → built_in_role_actions p.built_in_roles name ≡ some acts
        → Returns (IsPlan ((user_id, entity_id, name, members) ∷ [])) (
            (or_wrap create_entity (λ _. sid)
                >>= plan_named world p domain_id user_id entity_id name members acts)
              w)
    named-IsPlan entity_id name acts members (ok sid, w1) w found =
        validated-IsPlan entity_id sid name acts members (validate_actions p.actions acts) w1 found
          refl
    named-IsPlan entity_id name acts members (err _, w1) w found = tt

    granted-IsPlan :
        (entity_id name : String) (members : List String) (found : Option (List String)) (w : W)
        → found ≡ built_in_role_actions p.built_in_roles name
        → Returns (IsPlan ((user_id, entity_id, name, members) ∷ [])) (
            (or_missing_role world p name found
                >>= plan_granted world p domain_id user_id entity_id name members)
              w)
    granted-IsPlan entity_id name members (some acts) w found =
        named-IsPlan entity_id name acts members (world.new_sid w) w (sym found)
    granted-IsPlan entity_id name members none w found = tt

    plan_roles-IsPlan :
        (entity_id : String) (roles : List (String × List String)) (w : W)
        → Returns
            (IsPlan (asked_roles user_id entity_id roles))
            (plan_roles world p domain_id user_id entity_id roles w)
    unfolding plan_roles
    plan_roles-IsPlan entity_id [] w = empty-IsPlan
    plan_roles-IsPlan entity_id ((name, members) ∷ rest) w =
        let one_asked = (user_id, entity_id, name, members) ∷ [] in
        let rest_asked = asked_roles user_id entity_id rest in
        >>=-Returns (IsPlan one_asked) (IsPlan (one_asked ++ rest_asked))
          (plan_role world p domain_id user_id entity_id name members w)
          (λ first. plan_roles world p domain_id user_id entity_id rest >>= λ others.
            pure (join_plans first others))
          w
          (granted-IsPlan entity_id name members (built_in_role_actions p.built_in_roles name) w
            refl)
          (λ first w1 one.
            >>=-Returns (IsPlan rest_asked) (IsPlan (one_asked ++ rest_asked))
              (plan_roles world p domain_id user_id entity_id rest w1)
              (λ others. pure (join_plans first others)) w1 (plan_roles-IsPlan entity_id rest w1)
              (λ others w2 more. join_plans-IsPlan one_asked rest_asked first others one more))

    -- A plan for new entities has, entity by entity, one role for each of the built-in roles that
    -- are asked for, with that name, entity, author and list of members. Each role has an ID of the
    -- entity type and the actions of the built-in role of its name, all of which are allowed; and
    -- the policies of the plan are those of its roles.
    pub plan_entities-IsPlan :
        (entity_ids : List String) (roles : List (String × List String)) (w : W)
        → Returns
            (IsPlan (asked_entities user_id entity_ids roles))
            (plan_entities world p domain_id user_id entity_ids roles w)
    unfolding plan_entities
    plan_entities-IsPlan [] roles w = empty-IsPlan
    plan_entities-IsPlan (entity_id ∷ rest) roles w =
        let first_asked = asked_roles user_id entity_id roles in
        let rest_asked = asked_entities user_id rest roles in
        >>=-Returns (IsPlan first_asked) (IsPlan (first_asked ++ rest_asked))
          (plan_roles world p domain_id user_id entity_id roles w)
          (λ first. plan_entities world p domain_id user_id rest roles >>= λ others.
            pure (join_plans first others))
          w (plan_roles-IsPlan entity_id roles w)
          (λ first w1 some_plan.
            >>=-Returns (IsPlan rest_asked) (IsPlan (first_asked ++ rest_asked))
              (plan_entities world p domain_id user_id rest roles w1)
              (λ others. pure (join_plans first others)) w1 (plan_entities-IsPlan rest roles w1)
              (λ others w2 more.
                join_plans-IsPlan first_asked rest_asked first others some_plan more))

-- ===== src/Roles/Policy.antt =====
-- The policies that a role stands for, and the checks on its actions (provisionmanage.go).
use Prim.Native.String.{◌++◌ as join}
use text.Mathlib.Text.{◌==◌}
use supermq.Common.{
  String, Bool, false, ◌||◌, Option, none, some, List, [], ◌∷◌, ◌++◌, map, if◌then◌else◌,
}
use supermq.Errors.{Err, foreign, wrap, Result, ok, err}
use supermq.Service.{malformed_entity}
use supermq.Policies.{Policy, no_policy, encode_domain_user_id}
use supermq.Roles.Data.{Provisioner, EntityActionRole, EntityMemberRole}

-- isActionAllowed
unfoldable pub is_action_allowed : List String → String → Bool
is_action_allowed [] action = false
is_action_allowed (cap ∷ caps) action = cap == action || is_action_allowed caps action

abbrev pub invalid_action : String → Err
invalid_action action = wrap malformed_entity (foreign (join "invalid action " (join action " ")))

-- validateActions: the error of the first action that is not allowed.
unfoldable pub validate_actions : List String → List String → Result (Unit {0})
unfolding is_action_allowed
validate_actions allowed [] = ok tt
validate_actions allowed (action ∷ rest) =
    if is_action_allowed allowed action
    then validate_actions allowed rest
    else err (invalid_action action)

-- BuiltInRoleActions, as a lookup in the map.
unfoldable pub built_in_role_actions : List (String × List String) → String → Option (List String)
built_in_role_actions [] name = none
built_in_role_actions ((n, acts) ∷ rest) name =
    if n == name then some acts else built_in_role_actions rest name

-- The policy that a role's members may do an action on the entity.
abbrev pub action_policy : String → String → String → String → Policy
action_policy entity_type role_id entity_id action = record no_policy {
  subject_type = "role";
  subject_relation = "member";
  subject = role_id;
  relation = action;
  object = entity_id;
  object_type = entity_type;
}

-- The policy that a user of the domain is a member of the role.
abbrev pub member_policy : String → String → String → Policy
member_policy domain_id role_id member = record no_policy {
  subject_type = "user";
  subject = encode_domain_user_id domain_id member;
  relation = "member";
  object = role_id;
  object_type = "role";
}

abbrev pub action_policies : String → String → String → List String → List Policy
action_policies entity_type role_id entity_id = map (action_policy entity_type role_id entity_id)

abbrev pub member_policies : String → String → List String → List Policy
member_policies domain_id role_id = map (member_policy domain_id role_id)

-- The loops of RemoveEntitiesRoles.
abbrev pub provisioned_policies :
    Provisioner → String → List EntityActionRole → List EntityMemberRole → List Policy
provisioned_policies p domain_id ears emrs =
    map (λ ear. action_policy p.entity_type ear.role_id ear.entity_id ear.action) ears
    ++ map (λ emr. member_policy domain_id emr.role_id emr.member_id) emrs

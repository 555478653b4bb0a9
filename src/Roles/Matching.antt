-- ===== src/Roles/Matching.antt =====
-- What the filters of pkg/roles/provisionmanage.go match of the policies that it makes.
use Prim.Native.String.{◌++◌ as join}
use text.Mathlib.Text.{◌==◌, starts_with}
use text.Mathlib.TextPositions.{eq_refl, starts_with-append}
use text.Mathlib.TextLemmas.{append_assoc, nil-append}
use supermq.Common.{◌≡◌, refl, sym, ap, ◌∙◌, Bool, true, false, ◌&&◌, ◌||◌, String}
use supermq.Policies.{to_relationship, filter_matches, field_matches}
use supermq.Roles.Policy.{action_policy, member_policy}
use supermq.Roles.Manage.{role_filter, members_filter, memberships_filter}

or_true : (a : Bool) → (a || true) ≡ true
or_true true = refl
or_true false = refl

and_false : (a : Bool) → (a && false) ≡ false
and_false true = refl
and_false false = refl

and_both : (a b : Bool) → a ≡ true → b ≡ true → (a && b) ≡ true
and_both true b h k = k
and_both false b h k = h

any_start : (s : String) → starts_with s "" ≡ true
any_start s = ap (λ v. starts_with v "") (sym (nil-append s)) ∙ starts_with-append "" s

field_same : (s : String) → field_matches s s ≡ true
field_same s = ap (λ b. (s == "") || b) (eq_refl s) ∙ or_true (s == "")

pub not_member :
    (id domain_id role_id member : String)
    → filter_matches (role_filter id) (to_relationship (member_policy domain_id role_id member))
      ≡ false
unfolding filter_matches
not_member id domain_id role_id member = and_false (starts_with role_id "")

pub is_action :
    (entity_type entity_id action id : String)
    → filter_matches
        (role_filter id)
        (to_relationship (action_policy entity_type id entity_id action))
      ≡ true
unfolding filter_matches
is_action entity_type entity_id action id =
    and_both (starts_with entity_id "") (field_matches id id && true) (any_start entity_id)
      (and_both (field_matches id id) true (field_same id) refl)

pub is_member :
    (domain_id id member : String)
    → filter_matches (members_filter id) (to_relationship (member_policy domain_id id member))
      ≡ true
unfolding filter_matches
is_member domain_id id member =
    and_both (field_matches id id) (starts_with id "" && true) (field_same id)
      (and_both (starts_with id "") true (any_start id) refl)

pub is_any_member :
    (entity_type domain_id sid member : String)
    → filter_matches
        (memberships_filter entity_type)
        (to_relationship (member_policy domain_id (join entity_type (join "_" sid)) member))
      ≡ true
unfolding filter_matches
is_any_member entity_type domain_id sid member =
    and_both (starts_with (join entity_type (join "_" sid)) (join entity_type "_")) true
      (ap (λ v. starts_with v (join entity_type "_")) (sym (append_assoc entity_type "_" sid))
        ∙ starts_with-append (join entity_type "_") sid)
      refl

-- ===== src/Policies/Spicedb/Validation.antt =====
-- The checks of policies before a write in pkg/policies/spicedb/service.go.
use text.Mathlib.Text.{◌==◌}
use supermq.Common.{◌&&◌, not, none, List, [], ◌∷◌, ◌++◌, if◌then◌else◌}
use supermq.Errors.{Err, new, Result, ok, err, wrapping, ◌>>=◌}
use supermq.Policies.{Policy}
use supermq.Policies.Spicedb.Data.{Precondition, SpiceDb}
use supermq.Policies.Spicedb.Preconditions.{add_policy_pre_condition}

abbrev pub invalid_policy : Err
invalid_policy = new none "invalid policy"

abbrev pub invalid_platform : Err
invalid_platform = new none "invalid platform id"

-- policyValidation
unfoldable pub policy_validation : Policy → Result (Unit {0})
policy_validation pr =
    if pr.object_type == "platform" && not (pr.object == "supermq")
    then err invalid_platform
    else ok tt

-- The loop of DeletePolicies.
unfoldable pub validate_all : List Policy → Result (Unit {0})
unfolding policy_validation
validate_all [] = ok tt
validate_all (pr ∷ prs) = wrapping invalid_policy (policy_validation pr) >>= λ _. validate_all prs

module _ {W : Type 0} (db : SpiceDb W) where
  -- The loop of AddPolicies: the preconditions of every policy, each of which is validated first.
  unfoldable pub collect : List Policy → W → Result (List Precondition)
  unfolding policy_validation add_policy_pre_condition
  collect [] w = ok []
  collect (pr ∷ prs) w = wrapping invalid_policy (policy_validation pr) >>= λ _.
      add_policy_pre_condition db pr w >>= λ first. collect prs w >>= λ others. ok (first ++ others)

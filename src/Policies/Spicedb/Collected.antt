-- ===== src/Policies/Spicedb/Collected.antt =====
-- What held before policies whose preconditions AddPolicies of pkg/policies/spicedb/service.go has
-- collected.
use supermq.Common.{◌≡◌, refl, sym, subst, List, [], ◌∷◌, ◌++◌, All, All-split}
use supermq.Errors.{Result, ok, err, wrapping, ◌>>=◌}
use supermq.Policies.{Policy}
use supermq.Policies.Spicedb.Data.{Precondition, Satisfied, SpiceDb}
use supermq.Policies.Spicedb.Preconditions.{add_policy_pre_condition}
use supermq.Policies.Spicedb.Validation.{policy_validation, invalid_policy, collect}

module _ {W : Type 0} (db : SpiceDb W) where
  -- The policy is valid, and everything that is checked for it holds.
  abbrev pub Guarded : W → Policy → Type 0
  Guarded w pr =
      (policy_validation pr ≡ ok tt)
      × ((cs : List Precondition) × (add_policy_pre_condition db pr w ≡ ok cs)
          × All (Satisfied (db.holds w)) cs)

  first_collected :
      (pr : Policy) (prs : List Policy) (valid : Result (Unit {0}))
      (first : Result (List Precondition)) (rest : Result (List Precondition))
      (cs : List Precondition) (w : W)
      → policy_validation pr ≡ valid
      → add_policy_pre_condition db pr w ≡ first
      → (wrapping invalid_policy valid >>= λ _. first >>= λ a. rest >>= λ b. ok (a ++ b)) ≡ ok cs
      → All (Satisfied (db.holds w)) cs
      → ((others : List Precondition)
          → rest ≡ ok others
          → All (Satisfied (db.holds w)) others
          → All (Guarded w) prs)
      → All (Guarded w) (pr ∷ prs)
  first_collected pr prs (err _) first rest cs w v f e sat more = cc
  first_collected pr prs (ok _) (err _) rest cs w v f e sat more = cc
  first_collected pr prs (ok _) (ok a) (err _) cs w v f e sat more = cc
  first_collected pr prs (ok _) (ok a) (ok b) cs w v f e sat more =
      let (mine, others) =
        All-split (Satisfied (db.holds w)) a b
          (subst (All (Satisfied (db.holds w))) (sym (ok_eq (a ++ b) cs e)) sat) in
      ((v, (a, f, mine)), more b refl others)
    where
      ok_eq : (x y : List Precondition) → ◌≡◌ {A = Result (List Precondition)} (ok x) (ok y) → x ≡ y
      ok_eq x y h = cc

  pub collect_guards :
      (prs : List Policy) (cs : List Precondition) (w : W)
      → collect db prs w ≡ ok cs
      → All (Satisfied (db.holds w)) cs
      → All (Guarded w) prs
  unfolding collect
  collect_guards [] cs w e sat = tt
  collect_guards (pr ∷ prs) cs w e sat =
      first_collected pr prs (policy_validation pr) (add_policy_pre_condition db pr w)
        (collect db prs w) cs w refl refl e sat
        (λ others same more. collect_guards prs others w same more)

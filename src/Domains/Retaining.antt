-- ===== src/Domains/Retaining.antt =====
-- The members that the built-in roles of a domain keep (domains/service.go).
use supermq.Common.{
  ◌≡◌, refl, sym, ap, ◌∙◌, subst, ◌<◌, ◌≤◌, ◌+◌, arith, Bool, true, false, String, List, leb,
  length, if◌then◌else◌, ℕ,
}
use supermq.Errors.{Result, ok, err}
use supermq.Service.{
  Action, ◌>>=◌, ◌>>◌, pure, fail_if, read, or_wrap, view_entity, remove_entity,
  delete_policies_error, malformed_entity,
}
use supermq.Service.Laws.{Keeps, >>=-Keeps, or_wrap-Keeps, fail_if-Keeps, >>=-after}
use supermq.Policies.{Policy}
use supermq.Roles.Data.{Role, MembersPage, Session, Provisioner}
use supermq.Roles.Policy.{member_policies}
use supermq.Roles.Manage.{
  is_empty, drop_members, save_without_members, touched, role_remove_members,
}
use supermq.Domains.Data.{DomainWorld}
use supermq.Domains.Manage.{
  retain_one_member, is_built_in, check_retained, drop_invitations, domain_role_remove_members,
}

-- The table of the members of roles, by the number of its rows for a role: a list of members counts
-- them, and the DELETE of some members deletes at most one row for each, since a member is in a role
-- once. It has no rows of invitations or policies.
pub record MemberTable {W : Type 0} (world : DomainWorld W) : Type 0 where
  pub count : String → W → ℕ
  pub named :
      (entity_id role_id : String) (w : W) (ro : Role)
      → world.roles.repo.retrieve_entity_role entity_id role_id w ≡ ok ro
      → ro.id ≡ role_id
  pub lists :
      (role_id : String) (limit offset : ℕ) (w : W) (page : MembersPage)
      → world.roles.repo.list_members role_id limit offset w ≡ ok page
      → page.total ≡ count role_id w
  pub removes :
      (ro : Role) (members : List String) (role_id : String) (w : W)
      → count role_id w
        ≤ count role_id (world.roles.repo.remove_members ro members w).1 + length members
  pub invitations_keep :
      (role_id domain_id : String) (users : List String)
      → Keeps (count role_id) (world.repo.delete_invitations domain_id users)
  pub policies_keep :
      (role_id : String) (prs : List Policy) → Keeps (count role_id) (world.roles.policy.delete prs)

ok_eq : (r ro : Role) → ◌≡◌ {A = Result Role} (ok r) (ok ro) → r ≡ ro
ok_eq r ro e = cc

left_over : (n k total : ℕ) → total ≡ n → leb total k ≡ false → k < n
left_over n k total e h = ground arith

still_one : (n m k : ℕ) → k < n → n ≤ m + k → 0 < m
still_one n m k h g = omega arith

module _ {W : Type 0} (world : DomainWorld W) (table : MemberTable world) (p : Provisioner)
    (session : Session) where
  open world use {roles}
  open table use {count}

  -- The role has lost at most these members.
  abbrev Loses : String → List String → W → W → Type 0
  Loses role_id members w w' = count role_id w ≤ count role_id w' + length members

  same_Loses :
      (role_id : String) (members : List String) (w w' : W)
      → count role_id w' ≡ count role_id w
      → Loses role_id members w w'
  same_Loses role_id members w w' e = omega arith

  later_Loses :
      (role_id : String) (members : List String) (w w1 w2 : W)
      → count role_id w1 ≡ count role_id w
      → Loses role_id members w1 w2
      → Loses role_id members w w2
  later_Loses role_id members w w1 w2 e h = omega arith

  guarded-Keeps :
      (role_id : String) (members : List String) (ro : Role)
      → Keeps (count role_id) (
          fail_if (is_empty members) malformed_entity
          >> or_wrap delete_policies_error
              (roles.policy.delete (member_policies session.domain_id ro.id members)))
  guarded-Keeps role_id members ro =
      let prs = member_policies session.domain_id ro.id members in
      >>=-Keeps (count role_id) (fail_if (is_empty members) malformed_entity)
        (λ _. or_wrap delete_policies_error (roles.policy.delete prs))
        (fail_if-Keeps (count role_id) (is_empty members) malformed_entity)
        (λ _.
          or_wrap-Keeps (count role_id) delete_policies_error (roles.policy.delete prs)
            (table.policies_keep role_id prs))

  dropped_Loses :
      (role_id : String) (members : List String) (ro : Role) (w : W)
      → Loses role_id members w (drop_members roles p session members ro w).1
  dropped_Loses role_id members ro w =
      let guarded =
        fail_if (is_empty members) malformed_entity
        >> or_wrap delete_policies_error
            (roles.policy.delete (member_policies session.domain_id ro.id members)) in
      >>=-after (Loses role_id members w) (guarded w)
        (λ _. save_without_members roles p session members ro) w
        (same_Loses role_id members w (guarded w).1 (guarded-Keeps role_id members ro w))
        (λ _ w1 e.
          later_Loses role_id members w w1
            (roles.repo.remove_members (touched session ro (roles.now w1)) members w1).1
            (ap (λ z. count role_id z.1) (sym e) ∙ guarded-Keeps role_id members ro w)
            (table.removes (touched session ro (roles.now w1)) members role_id w1))

  removed_Loses :
      (entity_id role_id : String) (members : List String) (w : W)
      → Loses role_id members w (role_remove_members roles p session entity_id role_id members w).1
  unfolding role_remove_members
  removed_Loses entity_id role_id members w =
      after_found (roles.repo.retrieve_entity_role entity_id role_id w)
    where
      after_found :
          (found : Result Role)
          → Loses role_id members w
              ((or_wrap remove_entity (read (λ _. found)) >>= drop_members roles p session members)
                w).1
      after_found (err _) = same_Loses role_id members w w refl
      after_found (ok ro) = dropped_Loses role_id members ro w

  rest_Loses :
      (entity_id role_id : String) (members : List String) (w : W)
      → Loses role_id members w
          ((drop_invitations world p entity_id members
              >> role_remove_members roles p session entity_id role_id members)
            w).1
  rest_Loses entity_id role_id members w =
      let kept = table.invitations_keep role_id entity_id members w in
      >>=-after (Loses role_id members w) (drop_invitations world p entity_id members w)
        (λ _. role_remove_members roles p session entity_id role_id members) w
        (same_Loses role_id members w (drop_invitations world p entity_id members w).1 kept)
        (λ _ w1 e.
          later_Loses role_id members w w1
            (role_remove_members roles p session entity_id role_id members w1).1
            (ap (λ z. count role_id z.1) (sym e) ∙ kept)
            (removed_Loses entity_id role_id members w1))

  -- The check refuses, or leaves the world and has found more members than are to be removed.
  checked_one :
      (role_id : String) (members : List String) (listed : Result MembersPage)
      (rest : Action W (Unit {0})) (w : W)
      → ((page : MembersPage) → listed ≡ ok page → page.total ≡ count role_id w)
      → 0 < count role_id w
      → Loses role_id members w (rest w).1
      → 0
        < count role_id
            (((or_wrap view_entity (read (λ _. listed)) >>= λ page.
                  fail_if (leb page.total (length members)) retain_one_member)
                >> rest)
              w).1
  checked_one role_id members (err _) rest w counts one loses = one
  checked_one role_id members (ok page) rest w counts one loses =
      by_test (leb page.total (length members)) refl
    where
      by_test :
          (small : Bool)
          → leb page.total (length members) ≡ small
          → 0 < count role_id ((fail_if small retain_one_member >> rest) w).1
      by_test true e = one
      by_test false e =
          still_one (count role_id w) (count role_id (rest w).1) (length members)
            (left_over (count role_id w) (length members) page.total (counts page refl) e) loses

  found_one :
      (entity_id role_id : String) (members : List String) (ro : Role) (found : Result Role) (w : W)
      → found ≡ ok ro
      → ro.id ≡ role_id
      → is_built_in p ro ≡ true
      → 0 < count role_id w
      → 0
        < count role_id
            ((or_wrap view_entity (read (λ _. found)) >>= λ r.
                check_retained world p r members
                >> (drop_invitations world p entity_id members
                    >> role_remove_members roles p session entity_id role_id members))
              w).1
  found_one entity_id role_id members ro (err _) w e same built_in one = cc
  found_one entity_id role_id members ro (ok r) w e same built_in one =
      let rest =
        drop_invitations world p entity_id members
        >> role_remove_members roles p session entity_id role_id members in
      let is_ro = ok_eq r ro e in
      subst
        (λ b.
          0
          < count role_id
              (((if b
                    then (or_wrap view_entity (read (roles.repo.list_members r.id 0 0)) >>= λ page.
                        fail_if (leb page.total (length members)) retain_one_member)
                    else pure tt)
                  >> rest)
                w).1)
        (sym (ap (is_built_in p) is_ro ∙ built_in))
        (checked_one role_id members (roles.repo.list_members r.id 0 0 w) rest w
          (λ page found.
            table.lists r.id 0 0 w page found ∙ ap (λ id. count id w) (ap (λ x. x.id) is_ro ∙ same))
          one (rest_Loses entity_id role_id members w))

  -- A built-in role of a domain that has a member has one after RoleRemoveMembers of the domains
  -- service, whether the call succeeds or not: if a list of members counts the rows of the role, and
  -- the DELETE of some members takes at most one row for each.
  pub domain_role_remove_members-Retains :
      (entity_id role_id : String) (members : List String) (ro : Role) (w : W)
      → roles.repo.retrieve_entity_role entity_id role_id w ≡ ok ro
      → is_built_in p ro ≡ true
      → 0 < count role_id w
      → 0 < count role_id (domain_role_remove_members world p session entity_id role_id members w).1
  unfolding domain_role_remove_members
  domain_role_remove_members-Retains entity_id role_id members ro w found built_in one =
      found_one entity_id role_id members ro (roles.repo.retrieve_entity_role entity_id role_id w) w
        found (table.named entity_id role_id w ro found) built_in one

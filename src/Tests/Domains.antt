-- ===== src/Tests/Domains.antt =====
-- The theorems on domains/service.go applied to a world with one invitation.
use text.Mathlib.Text.{◌==◌}
use text.Mathlib.TextEquality.{eq_iff}
use supermq.Common.{
  length, arith, ◌<◌, String, Bool, true, sym, ap, ◌∙◌, if◌then◌else◌, ◌≡◌, refl, false, none, some,
  List, [], ◌∷◌,
}
use supermq.Errors.{Result, ok, err, new}
use supermq.Roles.Data.{Role, RoleWorld, Repository, MembersPage}
use supermq.Roles.Policy.{built_in_role_actions}
use supermq.Redis.{Redis}
use supermq.Domains.Data.{Invitation, DomainWorld, enabled}
use supermq.Domains.Cache.{remove_cached_status}
use supermq.Domains.Invite.{accept_invitation, reject_invitation}
use supermq.Domains.Manage.{domain_id_of, create_domain, domain_role_remove_members}
use supermq.Domains.Invariant.{OneAnswer}
use supermq.Domains.Runs.{Call, send, accept, reject, run, run-OneAnswer}
use supermq.Domains.Accepting.{Admitted, Refused, accept_invitation-Admitted, answered-Refused}
use supermq.Domains.Creating.{Created, chosen, create_domain-Created}
use supermq.Domains.Retaining.{MemberTable, domain_role_remove_members-Retains}
use supermq.Tests.RedisWorld.{entry_redis}
use supermq.Tests.RoleWorld.{one_role, stored_role, domain_roles, admin_session, nothing}
use supermq.Tests.DomainWorld.{World, store, tables, d1, erase_all, erase_most}

-- One role, whose members are in the world.
abbrev pub member_repo : Repository World
member_repo =
    let any : Repository World = one_role in
    record any {
      list_members = λ id limit offset w. ok (record {
        total = length w.members;
        offset = offset;
        limit = limit;
        members = w.members;
      });
      remove_members = λ ro ms w. (ok tt, record w { members = erase_all ms w.members });
    }

abbrev pub world_roles : RoleWorld World
world_roles = record {
  policy = store;
  repo = member_repo;
  new_sid = λ w. (ok "r2", w);
  now = λ w. 7;
  sid_keeps = λ w r. refl;
  add_roles_keeps = λ rs w r. refl;
  remove_roles_keeps = λ ids w r. refl;
  add_actions_keeps = λ ro acts w r. refl;
  remove_actions_keeps = λ ro acts w r. refl;
  remove_all_actions_keeps = λ ro w r. refl;
  add_members_keeps = λ ro ms w r. refl;
  remove_members_keeps = λ ro ms w r. refl;
  remove_all_members_keeps = λ ro w r. refl;
}

abbrev pub domain_redis : Redis World
domain_redis = entry_redis (λ w. w.entries) (λ e w. record w { entries = e }) (λ e w. refl)

abbrev pub domain_world : DomainWorld World
domain_world = record {
  roles = world_roles;
  repo = tables;
  new_id = λ w. (ok "d2", w);
  remove_status = remove_cached_status domain_redis;
  id_keeps = λ w id. refl;
  policies_keep = λ prs user domain w. refl;
  undo_keeps = λ prs user domain w. refl;
  members_keep = λ ro ms user domain w. refl;
  confirmation_keeps = λ inv w r. refl;
}

abbrev pub empty_world : World
empty_world = record {
  relationships = nothing;
  invitation = none;
  domains = λ id. id == "d1";
  status = enabled;
  entries = λ k. none;
  members = "u2" ∷ "u3" ∷ [];
}

abbrev invited : Invitation
invited = record {
  invited_by = "u9";
  invitee_user_id = "u1";
  domain_id = "d1";
  domain_name = "";
  role_id = "domain_r1";
  role_name = "";
  created_at = 1;
  updated_at = 0;
  confirmed_at = 0;
  rejected_at = 0;
  resend = false;
}

abbrev answered : Invitation
answered = record invited { confirmed_at = 5 }

abbrev pending_world : World
pending_world = record empty_world { invitation = some invited }

abbrev answered_world : World
answered_world = record empty_world { invitation = some answered }

abbrev calls : List Call
calls = send admin_session invited ∷ accept admin_session "d1" ∷ reject admin_session "d1" ∷ []

empty_one : OneAnswer domain_world domain_roles empty_world
empty_one user domain inv h = cc

run-OneAnswer_example :
    OneAnswer domain_world domain_roles (run domain_world domain_roles calls empty_world)
run-OneAnswer_example = run-OneAnswer domain_world domain_roles calls empty_world empty_one

accept_invitation_example :
    Admitted domain_world domain_roles admin_session "d1" pending_world
      (accept_invitation domain_world domain_roles admin_session "d1" pending_world)
accept_invitation_example =
    accept_invitation-Admitted domain_world domain_roles admin_session "d1" pending_world

answered_example :
    Refused domain_world domain_roles admin_session "d1" answered_world
      (accept_invitation domain_world domain_roles admin_session "d1" answered_world)
    × Refused domain_world domain_roles admin_session "d1" answered_world
        (reject_invitation domain_world domain_roles admin_session "d1" answered_world)
answered_example =
    answered-Refused domain_world domain_roles admin_session "d1" answered answered_world refl refl

create_domain_example :
    Created domain_world domain_roles
      (chosen domain_world domain_roles (domain_id_of domain_world domain_roles d1 empty_world).0)
      empty_world
      (create_domain domain_world domain_roles admin_session d1 empty_world)
create_domain_example = create_domain-Created domain_world domain_roles admin_session d1 empty_world

found_id :
    (test : Bool) (id : String) (ro : Role)
    → (id == "domain_r1") ≡ test
    → (if test then ok stored_role else err (new none "not found")) ≡ ok ro
    → ro.id ≡ id
found_id true id ro e h = ap (λ r. id_in r) (sym h) ∙ sym ((eq_iff id "domain_r1").0 e)
  where
    id_in : Result Role → String
    id_in (ok r) = r.id
    id_in (err _) = ""
found_id false id ro e h = cc

total_of :
    (page found : MembersPage)
    → ◌≡◌ {A = Result MembersPage} (ok page) (ok found)
    → found.total ≡ page.total
total_of page found h = let same : page ≡ found = cc in ap (λ p. p.total) (sym same)

abbrev member_table : MemberTable domain_world
member_table = record {
  count = λ id w. length w.members;
  named = λ entity_id role_id w ro h. found_id (role_id == "domain_r1") role_id ro refl h;
  lists = λ role_id limit offset w page h. total_of _ page h;
  removes = λ ro members role_id w. erase_most members w.members;
  invitations_keep = λ role_id domain_id users w. refl;
  policies_keep = λ role_id prs w. refl;
}

domain_role_remove_members_example :
    0
    < member_table.count "domain_r1"
        (domain_role_remove_members domain_world domain_roles admin_session "d1" "domain_r1"
          ("u2" ∷ [])
          empty_world).1
unfolding built_in_role_actions
domain_role_remove_members_example =
    domain_role_remove_members-Retains domain_world member_table domain_roles admin_session "d1"
      "domain_r1" ("u2" ∷ []) stored_role empty_world refl refl (omega arith)

-- ===== src/Tests/DomainWorld.antt =====
-- A world of the domains service: a set of relationships, a table with room for one invitation, and
-- the IDs of the domains.
use text.Mathlib.Text.{◌==◌}
use text.Mathlib.TextEquality.{eq_iff}
use text.Mathlib.TextPositions.{eq_refl}
use supermq.Common.{
  length, List, ◌∷◌, arith, ◌≤◌, ◌+◌, if◌then◌else◌, String, ◌≡◌, refl, sym, ap, ◌∙◌, ◌⊎◌, inl, inr,
  Bool, true, false, not, ◌&&◌, ◌||◌, Option, none, some, [], Bool-cases,
}
use supermq.Errors.{Err, Result, ok, err, new, service}
use supermq.Policies.{listed, filter_matches, PolicyStore}
use supermq.Domains.Data.{Invitation, Domain, Status, enabled}
use supermq.Domains.Data as D
use supermq.Tests.RoleWorld.{
  Set, any_held, added, added_creates, added_adds, added_fails, no_failure, stored_role, split,
}

pub record World : Type 0 where
  pub relationships : Set
  pub invitation : Option Invitation
  pub domains : String → Bool
  pub status : Status
  pub entries : String → Option String
  pub members : List String

abbrev pub with_set : World → Result (Unit {0}) × Set → Result (Unit {0}) × World
with_set w (r, s) = (r, record w { relationships = s })

abbrev pub store : PolicyStore World
store = record {
  holds = λ w r. w.relationships r;
  add = λ ps w. with_set w (added (any_held ps w.relationships) ps w.relationships);
  delete =
      λ ps w. (ok tt, record w { relationships = λ r. not (listed ps r) && w.relationships r });
  delete_filter = λ f w.
      (ok tt, record w { relationships = λ r. not (filter_matches f r) && w.relationships r });
  add_creates =
      λ ps w r h l. added_creates (any_held ps w.relationships) ps w.relationships r refl h l;
  add_adds = λ ps w r h. added_adds (any_held ps w.relationships) ps w.relationships r h;
  add_fails = λ ps w r e h. added_fails (any_held ps w.relationships) ps w.relationships r e h;
  delete_deletes = λ ps w r h. refl;
  delete_fails = λ ps w r e h. no_failure e _ _ h;
  filter_deletes = λ f w r h. refl;
  filter_fails = λ f w r e h. no_failure e _ _ h;
}

-- The invitation of a user to a domain.
abbrev pub is_of : String → String → Invitation → Bool
is_of user domain inv = inv.invitee_user_id == user && inv.domain_id == domain

abbrev pub when_of : Bool → Invitation → Option Invitation
when_of true inv = some inv
when_of false inv = none

abbrev pub at : Option Invitation → String → String → Option Invitation
at none user domain = none
at (some inv) user domain = when_of (is_of user domain inv) inv

abbrev pub missing : Err
missing = new (some service) "not found"

abbrev pub or_missing : Option Invitation → Result Invitation
or_missing none = err missing
or_missing (some inv) = ok inv

abbrev pub fresh : Invitation → Invitation
fresh inv = record inv {
  domain_name = "";
  role_name = "";
  updated_at = 0;
  confirmed_at = 0;
  rejected_at = 0;
}

abbrev pub saved : Option Invitation → Invitation → Result (Unit {0}) × Option Invitation
saved none inv = (ok tt, some (fresh inv))
saved (some old) inv = (err missing, some old)

-- An UPDATE of the invitation of the same user to the same domain.
abbrev pub updated : Bool → Invitation → Invitation → Result (Unit {0}) × Option Invitation
updated true old now = (ok tt, some now)
updated false old now = (err missing, some old)

abbrev pub update :
    (Invitation → Invitation)
    → Option Invitation
    → Invitation
    → Result (Unit {0}) × Option Invitation
update change none inv = (err missing, none)
update change (some old) inv =
    updated (is_of inv.invitee_user_id inv.domain_id old) old (change old)

pub or_missing-ok :
    (o : Option Invitation) (inv : Invitation) → or_missing o ≡ ok inv → o ≡ some inv
or_missing-ok none inv h = cc
or_missing-ok (some i) inv h = cc

when_keyed :
    (test : Bool) (i inv : Invitation) (user domain : String)
    → is_of user domain i ≡ test
    → when_of test i ≡ some inv
    → (inv.invitee_user_id ≡ user) × (inv.domain_id ≡ domain)
when_keyed true i inv user domain e h =
    let (u, d) = split (i.invitee_user_id == user) (i.domain_id == domain) e in
    let same = some_same i inv h in
    (
      ap (λ j. j.invitee_user_id) (sym same) ∙ (eq_iff i.invitee_user_id user).0 u,
      ap (λ j. j.domain_id) (sym same) ∙ (eq_iff i.domain_id domain).0 d,
    )
  where
    some_same : (a b : Invitation) → some a ≡ some b → a ≡ b
    some_same a b s = cc
when_keyed false i inv user domain e h = cc

pub at_keyed :
    (o : Option Invitation) (user domain : String) (inv : Invitation)
    → at o user domain ≡ some inv
    → (inv.invitee_user_id ≡ user) × (inv.domain_id ≡ domain)
at_keyed none user domain inv h = cc
at_keyed (some i) user domain inv h = when_keyed (is_of user domain i) i inv user domain refl h

when_either :
    (test : Bool) (inv : Invitation) → (when_of test inv ≡ none) ⊎ (when_of test inv ≡ some inv)
when_either true inv = inr refl
when_either false inv = inl refl

pub saves_one :
    (o : Option Invitation) (inv : Invitation) (user domain : String)
    → (at (saved o inv).1 user domain ≡ at o user domain)
      ⊎ (at (saved o inv).1 user domain ≡ some (fresh inv))
saves_one none inv user domain = when_either (is_of user domain (fresh inv)) (fresh inv)
saves_one (some old) inv user domain = inl refl

-- An UPDATE of the matching invitation, which keeps the key.
updates_when :
    (change : Invitation → Invitation) (old inv : Invitation) (hit : Bool) (user domain : String)
    → ((i : Invitation) → is_of user domain (change i) ≡ is_of user domain i)
    → is_of inv.invitee_user_id inv.domain_id old ≡ hit
    → (at (updated hit old (change old)).1 user domain ≡ at (some old) user domain)
      ⊎ ((was : Invitation) × (at (some old) user domain ≡ some was)
          × (user ≡ inv.invitee_user_id)
          × (domain ≡ inv.domain_id)
          × (at (updated hit old (change old)).1 user domain ≡ some (change was)))
updates_when change old inv false user domain keeps e = inl refl
updates_when change old inv true user domain keeps e = elim (Bool-cases (is_of user domain old)) [
  | inl here ↦
      let (u, d) = split (old.invitee_user_id == user) (old.domain_id == domain) here in
      let (v, c) =
        split (old.invitee_user_id == inv.invitee_user_id) (old.domain_id == inv.domain_id) e in
      inr (
        old,
        ap (λ t. when_of t old) here,
        sym ((eq_iff old.invitee_user_id user).0 u)
            ∙ (eq_iff old.invitee_user_id inv.invitee_user_id).0 v,
        sym ((eq_iff old.domain_id domain).0 d) ∙ (eq_iff old.domain_id inv.domain_id).0 c,
        ap (λ t. when_of t (change old)) (keeps old ∙ here),
      )
  | inr other ↦
      inl
        (ap (λ t. when_of t (change old)) (keeps old ∙ other) ∙ sym (ap (λ t. when_of t old) other))
]

pub updates_one :
    (change : Invitation → Invitation) (o : Option Invitation) (inv : Invitation)
    (user domain : String)
    → ((i : Invitation) → is_of user domain (change i) ≡ is_of user domain i)
    → (at (update change o inv).1 user domain ≡ at o user domain)
      ⊎ ((was : Invitation) × (at o user domain ≡ some was)
          × (user ≡ inv.invitee_user_id)
          × (domain ≡ inv.domain_id)
          × (at (update change o inv).1 user domain ≡ some (change was)))
updates_one change none inv user domain keeps = inl refl
updates_one change (some old) inv user domain keeps =
    updates_when change old inv (is_of inv.invitee_user_id inv.domain_id old) user domain keeps refl

abbrev pub with_invitation :
    World → Result (Unit {0}) × Option Invitation → Result (Unit {0}) × World
with_invitation w (r, o) = (r, record w { invitation = o })

abbrev pub d1 : Domain
d1 = record {
  id = "d1";
  name = "home";
  metadata = "{}";
  tags = [];
  route = "home";
  status = enabled;
  created_by = "u1";
  created_at = 1;
  updated_by = "";
  updated_at = 0;
}

pub forgotten : (id : String) (known : Bool) → (not (id == id) && known) ≡ false
forgotten id known = ap (λ t. not t && known) (eq_refl id)

pub no_failure_of :
    (d : Domain) (e : Err) (a b : Bool) → ◌≡◌ {A = Result Domain} (ok d) (err e) → a ≡ b
no_failure_of d e a b h = cc

-- The rows of the members of a role; a DELETE takes the first row of each member.
abbrev pub erase : String → List String → List String
erase m [] = []
erase m (x ∷ xs) = let rest = erase m xs in if x == m then xs else x ∷ rest

abbrev pub erase_all : List String → List String → List String
erase_all [] xs = xs
erase_all (m ∷ ms) xs = erase_all ms (erase m xs)

erase_one : (m : String) (xs : List String) → length xs ≤ length (erase m xs) + 1
erase_one m [] = omega arith
erase_one m (x ∷ xs) = elim (Bool-cases (x == m)) [
  | inl e ↦ rw e (omega arith)
  | inr e ↦ rw e (omega (arith, erase_one m xs))
]

pub erase_most : (ms xs : List String) → length xs ≤ length (erase_all ms xs) + length ms
erase_most [] xs = omega arith
erase_most (m ∷ ms) xs = omega (arith, erase_one m xs, erase_most ms (erase m xs))

abbrev pub or_status : Option Status → Status → Status
or_status none s = s
or_status (some t) s = t

abbrev pub tables : D.Repository World
tables = record {
  save_domain = λ d w. (ok d, record w { domains = λ i. i == d.id || w.domains i });
  delete_domain = λ id w. (ok tt, record w { domains = λ i. not (i == id) && w.domains i });
  retrieve_domain = λ id w. ok (record d1 { status = w.status });
  retrieve_domain_with_roles = λ id user w. ok (record d1 { status = w.status });
  update_domain = λ id req w.
      let s = or_status req.status w.status in
      (ok (record d1 { status = s }), record w { status = s });
  retrieve_role = λ id w. ok stored_role;
  save_invitation = λ inv w. with_invitation w (saved w.invitation inv);
  retrieve_invitation = λ user domain w. or_missing (at w.invitation user domain);
  update_confirmation = λ inv w. with_invitation w (
      update (λ i. record i { confirmed_at = inv.confirmed_at; updated_at = inv.updated_at })
        w.invitation inv);
  update_rejection = λ inv w. with_invitation w (
      update (λ i. record i { rejected_at = inv.rejected_at; updated_at = inv.updated_at })
        w.invitation inv);
  delete_invitations = λ domain users w. (ok tt, record w { invitation = none });
  is_not_found = λ e. false;
  stored = λ w user domain. at w.invitation user domain;
  known = λ w id. w.domains id;
  save_fails = λ d w e id h. no_failure_of d e _ _ h;
  delete_forgets = λ id w h. forgotten id (w.domains id);
  retrieves = λ user domain w inv h. or_missing-ok (at w.invitation user domain) inv h;
  keyed = λ user domain w inv h. at_keyed w.invitation user domain inv h;
  saves = λ inv w user domain. saves_one w.invitation inv user domain;
  confirms = λ inv w user domain.
      updates_one (λ i. record i { confirmed_at = inv.confirmed_at; updated_at = inv.updated_at })
        w.invitation inv user domain (λ i. refl);
  rejects = λ inv w user domain.
      updates_one (λ i. record i { rejected_at = inv.rejected_at; updated_at = inv.updated_at })
        w.invitation inv user domain (λ i. refl);
  deletes = λ domain_id users w user domain. inr refl;
}

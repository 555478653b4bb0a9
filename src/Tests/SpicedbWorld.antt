-- ===== src/Tests/SpicedbWorld.antt =====
-- A SpiceDB with room for one relationship, which takes only the write that creates it; every check
-- has the permission, and a lookup gives one answer.
use supermq.Common.{
  ◌≡◌, refl, Bool, true, false, ◌&&◌, Option, none, some, List, [], ◌∷◌, All, inl, inr,
  if◌then◌else◌,
}
use supermq.Policies.{Relationship, same}
use supermq.Policies.Spicedb.{CallError, status, failed_precondition, Reply}
use supermq.Policies.Spicedb.Data.{
  Update, is_create, apply, Requirement, must_match, must_not_match, Filter, Precondition,
  Satisfied, has_permission, checked, Stream, SpiceDb,
}
use supermq.Tests.RoleWorld.{split}

abbrev pub Place : Type 0
Place = Option Relationship

abbrev pub held : Place → Relationship → Bool
held none r = false
held (some s) r = same s r

abbrev pub refused : CallError
refused = status failed_precondition "refused"

abbrev pub is_must_not : Requirement → Bool
is_must_not must_match = false
is_must_not must_not_match = true

abbrev pub all_must_not : List Precondition → Bool
all_must_not [] = true
all_must_not (c ∷ cs) = is_must_not c.operation && all_must_not cs

abbrev pub created : Bool → Relationship → Reply (Unit {0}) × Place
created true r = (inr tt, some r)
created false r = (inl refused, none)

abbrev pub write_one : List Update → Bool → Place → Reply (Unit {0}) × Place
write_one (u ∷ []) true none = created (is_create u.operation) u.relationship
write_one (u ∷ []) true (some r) = (inl refused, some r)
write_one (u ∷ []) false w = (inl refused, w)
write_one [] b w = (inl refused, w)
write_one (u ∷ v ∷ us) b w = (inl refused, w)

as_if : (b : Bool) → b ≡ (if b then true else false)
as_if true = refl
as_if false = refl

one_applied :
    (c : Bool) (s r : Relationship)
    → (created c s).0 ≡ inr tt
    → held (created c s).1 r ≡ (if same s r then c else false)
one_applied true s r h = as_if (same s r)
one_applied false s r h = cc

pub applies :
    (us : List Update) (b : Bool) (w : Place) (r : Relationship)
    → (write_one us b w).0 ≡ inr tt
    → held (write_one us b w).1 r ≡ apply us (held w) r
applies (u ∷ []) true none r h = one_applied (is_create u.operation) u.relationship r h
applies (u ∷ []) true (some s) r h = cc
applies (u ∷ []) false w r h = cc
applies [] b w r h = cc
applies (u ∷ v ∷ us) b w r h = cc

pub creates :
    (us : List Update) (b : Bool) (w : Place)
    → (write_one us b w).0 ≡ inr tt
    → All
        (λ (u : Update).
          is_create u.operation ≡ true
          → (r : Relationship) → same u.relationship r ≡ true
          → held w r ≡ false)
        us
creates (u ∷ []) true none h = ((λ c r s. refl), tt)
creates (u ∷ []) true (some s) h = cc
creates (u ∷ []) false w h = cc
creates [] b w h = cc
creates (u ∷ v ∷ us) b w h = cc

satisfied :
    (op : Requirement) (f : Filter)
    → is_must_not op ≡ true
    → Satisfied (held none) (record { operation = op; filter = f })
satisfied must_match f h = cc
satisfied must_not_match f h = λ r m. refl

All-Satisfied : (cs : List Precondition) → all_must_not cs ≡ true → All (Satisfied (held none)) cs
All-Satisfied [] h = tt
All-Satisfied (c ∷ cs) h =
    let (here, there) = split (is_must_not c.operation) (all_must_not cs) h in
    (satisfied c.operation c.filter here, All-Satisfied cs there)

pub requires :
    (us : List Update) (cs : List Precondition) (b : Bool) (w : Place)
    → all_must_not cs ≡ b
    → (write_one us b w).0 ≡ inr tt
    → All (Satisfied (held w)) cs
requires (u ∷ []) cs true none e h = All-Satisfied cs e
requires (u ∷ []) cs true (some s) e h = cc
requires (u ∷ []) cs false w e h = cc
requires [] cs b w e h = cc
requires (u ∷ v ∷ us) cs b w e h = cc

one_failed :
    (c : Bool) (s r : Relationship) (e : CallError)
    → (created c s).0 ≡ inl e
    → held (created c s).1 r ≡ false
one_failed true s r e h = cc
one_failed false s r e h = refl

pub fails :
    (us : List Update) (b : Bool) (w : Place) (r : Relationship) (e : CallError)
    → (write_one us b w).0 ≡ inl e
    → held (write_one us b w).1 r ≡ held w r
fails (u ∷ []) true none r e h = one_failed (is_create u.operation) u.relationship r e h
fails (u ∷ []) true (some s) r e h = refl
fails (u ∷ []) false w r e h = refl
fails [] b w r e h = refl
fails (u ∷ v ∷ us) b w r e h = refl

pub never_deleted : (a b : Bool) → ◌≡◌ {A = Reply (Unit {0})} (inl refused) (inr tt) → a ≡ b
never_deleted a b h = cc

abbrev pub one_answer : Stream
one_answer = record { items = record { id = "u1"; cursor = none } ∷ []; failure = none }

abbrev pub one_place : SpiceDb Place
one_place = record {
  holds = held;
  write = λ us cs w. write_one us (all_must_not cs) w;
  delete_relationships = λ f w. (inl refused, w);
  check_permission = λ c w. inr has_permission;
  check_bulk_permissions = λ cs w. inr (checked "view" has_permission ∷ []);
  lookup_subjects = λ c token limit w. inr one_answer;
  lookup_resources = λ c token limit w. inr one_answer;
  write_applies = λ us cs w r h. applies us (all_must_not cs) w r h;
  write_creates = λ us cs w h. creates us (all_must_not cs) w h;
  write_requires = λ us cs w h. requires us cs (all_must_not cs) w refl h;
  write_fails = λ us cs w r e h. fails us (all_must_not cs) w r e h;
  delete_applies = λ f w r h. never_deleted _ _ h;
  delete_fails = λ f w r e h. refl;
}

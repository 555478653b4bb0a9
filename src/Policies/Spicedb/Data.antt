-- ===== src/Policies/Spicedb/Data.antt =====
-- What the service sends to SpiceDB, and what SpiceDB documents of its answers: a write is one
-- transaction, which needs every precondition, and CREATE fails on a relationship that exists.
use text.Mathlib.Text.{◌==◌, starts_with}
use supermq.Common.{
  ℕ, String, ◌≡◌, Bool, true, false, ◌&&◌, ◌||◌, not, Option, none, some, List, [], ◌∷◌, All, inl,
  inr, if◌then◌else◌,
}
use supermq.Policies.{Relationship, same, field_matches}
use supermq.Policies.Spicedb.{Code, CallError, Reply}

pub data Operation : Type 0 where
  create : Operation
  delete : Operation

pub record Update : Type 0 where
  pub operation : Operation
  pub relationship : Relationship

pub record SubjectFilter : Type 0 where
  pub subject_type : String
  pub subject_id : String
  pub relation : Option String

-- Of the optional fields, an empty text is none.
pub record Filter : Type 0 where
  pub resource_type : String
  pub resource_id : String
  pub resource_id_prefix : String
  pub relation : String
  pub subject : Option SubjectFilter

pub data Requirement : Type 0 where
  must_match : Requirement
  must_not_match : Requirement

pub record Precondition : Type 0 where
  pub operation : Requirement
  pub filter : Filter

-- CheckPermissionRequest
pub record Check : Type 0 where
  pub resource_type : String
  pub resource : String
  pub permission : String
  pub subject_type : String
  pub subject : String
  pub subject_relation : String

-- The outcome of a check: the permission, or the name of another one that the client's table has,
-- or one that it has not.
pub data Permissionship : Type 0 where
  has_permission : Permissionship
  named : String → Permissionship
  unnamed : Permissionship

-- An answer of CheckBulkPermissions: an error, the permission that was asked for and its outcome,
-- or a pair that lacks one of them.
pub data Pair : Type 0 where
  failed : Code → String → Pair
  checked : String → Permissionship → Pair
  incomplete : Pair

-- One answer of a lookup: an ID and the cursor after it.
pub record Found : Type 0 where
  pub id : String
  pub cursor : Option String

-- What a stream of answers brings: the answers, and the error that ends it if it is not the end.
pub record Stream : Type 0 where
  pub items : List Found
  pub failure : Option CallError

abbrev pub relation_matches : Option String → String → Bool
relation_matches none s = true
relation_matches (some wanted) s = wanted == s

abbrev pub subject_matches : Option SubjectFilter → Relationship → Bool
subject_matches none r = true
subject_matches (some f) r =
    f.subject_type == r.subject_type
    && (field_matches f.subject_id r.subject && relation_matches f.relation r.subject_relation)

abbrev pub matches : Filter → Relationship → Bool
matches f r =
    field_matches f.resource_type r.resource_type
    && (field_matches f.resource_id r.resource
        && (starts_with r.resource f.resource_id_prefix
            && (field_matches f.relation r.relation && subject_matches f.subject r)))

abbrev pub is_create : Operation → Bool
is_create create = true
is_create delete = false

abbrev pub touches : List Update → Relationship → Bool
touches [] r = false
touches (u ∷ us) r = same u.relationship r || touches us r

-- What the updates make of the relationships; a request has no two for one relationship.
abbrev pub apply : List Update → (Relationship → Bool) → Relationship → Bool
apply [] held r = held r
apply (u ∷ us) held r = if same u.relationship r then is_create u.operation else apply us held r

abbrev pub Satisfied : (Relationship → Bool) → Precondition → Type 0
Satisfied held c = Requires c.operation c.filter
  where
    Requires : Requirement → Filter → Type 0
    Requires must_match f = (r : Relationship) × (held r ≡ true) × (matches f r ≡ true)
    Requires must_not_match f = (r : Relationship) → matches f r ≡ true → held r ≡ false

pub record SpiceDb (W : Type 0) : Type 0 where
  pub holds : W → Relationship → Bool
  pub write : List Update → List Precondition → W → Reply (Unit {0}) × W
  pub delete_relationships : Filter → W → Reply (Unit {0}) × W
  pub check_permission : Check → W → Reply Permissionship
  pub check_bulk_permissions : List Check → W → Reply (List Pair)
  -- A lookup of subjects from a cursor on, with the limit that is sent; 0 is no limit.
  pub lookup_subjects : Check → String → ℕ → W → Reply Stream
  pub lookup_resources : Check → String → ℕ → W → Reply Stream
  pub write_applies :
      (us : List Update) (cs : List Precondition) (w : W) (r : Relationship)
      → (write us cs w).0 ≡ inr tt
      → holds (write us cs w).1 r ≡ apply us (holds w) r
  pub write_creates :
      (us : List Update) (cs : List Precondition) (w : W)
      → (write us cs w).0 ≡ inr tt
      → All
          (λ u.
            is_create u.operation ≡ true
            → (r : Relationship) → same u.relationship r ≡ true
            → holds w r ≡ false)
          us
  pub write_requires :
      (us : List Update) (cs : List Precondition) (w : W)
      → (write us cs w).0 ≡ inr tt
      → All (Satisfied (holds w)) cs
  pub write_fails :
      (us : List Update) (cs : List Precondition) (w : W) (r : Relationship) (e : CallError)
      → (write us cs w).0 ≡ inl e
      → holds (write us cs w).1 r ≡ holds w r
  pub delete_applies :
      (f : Filter) (w : W) (r : Relationship)
      → (delete_relationships f w).0 ≡ inr tt
      → holds (delete_relationships f w).1 r ≡ (not (matches f r) && holds w r)
  pub delete_fails :
      (f : Filter) (w : W) (r : Relationship) (e : CallError)
      → (delete_relationships f w).0 ≡ inl e
      → holds (delete_relationships f w).1 r ≡ holds w r

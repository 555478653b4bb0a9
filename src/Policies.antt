-- ===== src/Policies.antt =====
-- Policies of pkg/policies/service.go and the store that keeps them as relationships.
-- The store is SpiceDB behind pkg/policies/spicedb/service.go: a relationship is what that file
-- sends of a policy, and `PolicyStore` is what SpiceDB documents of the writes that it makes. A
-- write is one transaction; CREATE fails on a relationship that exists, DELETE does not mind one
-- that does not, and DeleteRelationships removes what its filter matches.
pub mod Atomic
pub mod Deleting
pub mod Implements
pub mod Spicedb
use Prim.Native.String.{◌++◌ as join}
use text.Mathlib.Text.{◌==◌, starts_with}
use supermq.Common.{String, ◌≡◌, Bool, true, false, ◌&&◌, ◌||◌, not, List, [], ◌∷◌, if◌then◌else◌}
use supermq.Errors.{Result, ok, err, Err}
use supermq.Service.{Action}

pub record Policy : Type 0 where
  pub domain : String
  pub subject : String
  pub subject_type : String
  pub subject_relation : String
  pub object_prefix : String
  pub object : String
  pub object_type : String
  pub object_kind : String
  pub relation : String
  pub permission : String

abbrev pub no_policy : Policy
no_policy = record {
  domain = "";
  subject = "";
  subject_type = "";
  subject_relation = "";
  object_prefix = "";
  object = "";
  object_type = "";
  object_kind = "";
  relation = "";
  permission = "";
}

-- The relationship that AddPolicies and DeletePolicies send for a policy.
pub record Relationship : Type 0 where
  pub resource_type : String
  pub resource : String
  pub relation : String
  pub subject_type : String
  pub subject : String
  pub subject_relation : String

abbrev pub to_relationship : Policy → Relationship
to_relationship p = record {
  resource_type = p.object_type;
  resource = p.object;
  relation = p.relation;
  subject_type = p.subject_type;
  subject = p.subject;
  subject_relation = p.subject_relation;
}

unfoldable pub same : Relationship → Relationship → Bool
same a b =
    a.resource_type == b.resource_type
    && (a.resource == b.resource
        && (a.relation == b.relation
            && (a.subject_type == b.subject_type
                && (a.subject == b.subject && a.subject_relation == b.subject_relation))))

-- The relationship is that of one of the policies.
unfoldable pub listed : List Policy → Relationship → Bool
unfolding same
listed [] r = false
listed (p ∷ ps) r = same (to_relationship p) r || listed ps r

-- An empty field of a filter matches everything.
abbrev pub field_matches : String → String → Bool
field_matches wanted s = wanted == "" || wanted == s

-- The filter that DeletePolicyFilter sends; the subject is filtered only by a given type.
unfoldable pub filter_matches : Policy → Relationship → Bool
filter_matches p r =
    field_matches p.object_type r.resource_type
    && (field_matches p.object r.resource
        && (starts_with r.resource p.object_prefix
            && (field_matches p.relation r.relation
                && (p.subject_type == ""
                    || (p.subject_type == r.subject_type
                        && (field_matches p.subject r.subject
                            && field_matches p.subject_relation r.subject_relation))))))

-- EncodeDomainUserID
unfoldable pub encode_domain_user_id : String → String → String
encode_domain_user_id domain user =
    if domain == "" || user == "" then "" else join domain (join "_" user)

pub record PolicyStore (W : Type 0) : Type 0 where
  pub holds : W → Relationship → Bool
  pub add : List Policy → Action W (Unit {0})
  pub delete : List Policy → Action W (Unit {0})
  pub delete_filter : Policy → Action W (Unit {0})
  pub add_creates :
      (ps : List Policy) (w : W) (r : Relationship)
      → (add ps w).0 ≡ ok tt
      → listed ps r ≡ true
      → holds w r ≡ false
  pub add_adds :
      (ps : List Policy) (w : W) (r : Relationship)
      → (add ps w).0 ≡ ok tt
      → holds (add ps w).1 r ≡ (listed ps r || holds w r)
  pub add_fails :
      (ps : List Policy) (w : W) (r : Relationship) (e : Err)
      → (add ps w).0 ≡ err e
      → holds (add ps w).1 r ≡ holds w r
  pub delete_deletes :
      (ps : List Policy) (w : W) (r : Relationship)
      → (delete ps w).0 ≡ ok tt
      → holds (delete ps w).1 r ≡ (not (listed ps r) && holds w r)
  pub delete_fails :
      (ps : List Policy) (w : W) (r : Relationship) (e : Err)
      → (delete ps w).0 ≡ err e
      → holds (delete ps w).1 r ≡ holds w r
  pub filter_deletes :
      (p : Policy) (w : W) (r : Relationship)
      → (delete_filter p w).0 ≡ ok tt
      → holds (delete_filter p w).1 r ≡ (not (filter_matches p r) && holds w r)
  pub filter_fails :
      (p : Policy) (w : W) (r : Relationship) (e : Err)
      → (delete_filter p w).0 ≡ err e
      → holds (delete_filter p w).1 r ≡ holds w r

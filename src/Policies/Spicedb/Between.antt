-- ===== src/Policies/Spicedb/Between.antt =====
-- What a precondition of pkg/policies/spicedb/service.go says of single relationships.
use text.Mathlib.Text.{◌==◌, starts_with}
use text.Mathlib.TextEquality.{eq_iff}
use text.Mathlib.TextPositions.{eq_refl, slice-zero-zero}
use supermq.Common.{String, ◌≡◌, refl, sym, ap, ◌∙◌, Bool, true, false, ◌&&◌, ◌||◌}
use supermq.Policies.{Relationship, field_matches}
use supermq.Policies.Spicedb.Data.{Satisfied}
use supermq.Policies.Spicedb.Preconditions.{between, must, must_not}

-- A relationship of a resource to a subject.
abbrev pub link : String → String → String → String → String → String → Relationship
link resource_type resource relation subject_type subject subject_relation = record {
  resource_type = resource_type;
  resource = resource;
  relation = relation;
  subject_type = subject_type;
  subject = subject;
  subject_relation = subject_relation;
}

conj : (a b : Bool) → a ≡ true → b ≡ true → (a && b) ≡ true
conj true b h k = k
conj false b h k = cc

split : (a b : Bool) → (a && b) ≡ true → (a ≡ true) × (b ≡ true)
split true b h = (refl, h)
split false b h = cc

or_true : (b : Bool) → (b || true) ≡ true
or_true true = refl
or_true false = refl

starts_with_nothing : (s : String) → starts_with s "" ≡ true
starts_with_nothing s = ap (λ t. t == "") (slice-zero-zero s)

pub own_field : (v : String) → field_matches v v ≡ true
own_field v = ap (λ b. v == "" || b) (eq_refl v) ∙ or_true (v == "")

named_field : (v s : String) → (v == "") ≡ false → field_matches v s ≡ true → s ≡ v
named_field v s filled h = sym ((eq_iff v s).0 (ap (λ b. b || v == s) (sym filled) ∙ h))

-- A filter that must not match leaves none of the relationships that it describes, where the
-- relation `named` is any or the one of the filter.
pub unmatched :
    (held : Relationship → Bool)
    (resource_type resource named relation subject_type wanted subject subject_relation : String)
    → Satisfied held (must_not (between resource_type resource named subject_type wanted))
    → field_matches named relation ≡ true
    → field_matches wanted subject ≡ true
    → held (link resource_type resource relation subject_type subject subject_relation) ≡ false
unmatched held resource_type resource named relation subject_type wanted subject subject_relation
      absent a b =
    absent (link resource_type resource relation subject_type subject subject_relation) (
      conj _ _ (own_field resource_type) (
        conj _ _ (own_field resource) (
          conj _ _ (starts_with_nothing resource)
            (conj _ _ a (conj _ _ (eq_refl subject_type) (conj _ _ b refl))))))

relink :
    (held : Relationship → Bool) (r : Relationship)
    (resource_type resource subject_type subject : String)
    → r.resource_type ≡ resource_type
    → r.resource ≡ resource
    → r.subject_type ≡ subject_type
    → r.subject ≡ subject
    → held (link resource_type resource r.relation subject_type subject r.subject_relation) ≡ held r
relink held r resource_type resource subject_type subject a b c d =
    ap (λ t. held (link t resource r.relation subject_type subject r.subject_relation)) (sym a)
    ∙ ap (λ t. held (link r.resource_type t r.relation subject_type subject r.subject_relation))
        (sym b)
    ∙ ap (λ t. held (link r.resource_type r.resource r.relation t subject r.subject_relation))
        (sym c)
    ∙ ap
        (λ t. held (link r.resource_type r.resource r.relation r.subject_type t r.subject_relation))
        (sym d)

-- A filter that must match, of a resource and a subject that are named, gives a relationship
-- between them, of a relation that the filter allows.
pub matched :
    (held : Relationship → Bool) (resource_type resource named subject_type subject : String)
    → (resource_type == "") ≡ false
    → (resource == "") ≡ false
    → (subject == "") ≡ false
    → Satisfied held (must (between resource_type resource named subject_type subject))
    → (relation : String) × (subject_relation : String) × (field_matches named relation ≡ true)
      × (held (link resource_type resource relation subject_type subject subject_relation) ≡ true)
matched held resource_type resource named subject_type subject f g h (r, holding, m) =
    let (a, m1) = split _ _ m in
    let (b, m2) = split _ _ m1 in
    let (_, m3) = split _ _ m2 in
    let (c, m4) = split _ _ m3 in
    let (d, m5) = split _ _ m4 in
    let (e, _) = split _ _ m5 in
    (
      r.relation,
      r.subject_relation,
      c,
      relink held r resource_type resource subject_type subject
            (named_field resource_type r.resource_type f a) (named_field resource r.resource g b)
            (sym ((eq_iff subject_type r.subject_type).0 d)) (named_field subject r.subject h e)
          ∙ holding,
    )

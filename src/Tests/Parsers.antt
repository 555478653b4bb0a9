-- ===== src/Tests/Parsers.antt =====
-- The caching parser of pkg/messaging over a concrete cache and concrete services.
use Prim.Native.Char.{code}
use supermq.Common.{
  String, ◌≡◌, refl, ◌⊎◌, inl, inr, Option, none, some, List, [], ◌∷◌, arith, if◌then◌else◌, Bool,
  true, false, ◌==◌, length, Bool-cases,
}
use supermq.Errors.{Result, ok, err, foreign, nil}
use supermq.Messaging.Bytes.{Bytes, eq_bytes}
use supermq.Messaging.Parser.{Directory, ParsedTopic, TopicCache, publish, publish_miss}
use supermq.Messaging.Parser.Laws.{SameAnswer, IsGenuineCache, IsResolvedCache}
use supermq.Messaging.Parser.Transparent.{Call, run, publish_transparent}
use supermq.Messaging.Parser.ResolvedCache.{publish_resolved_transparent}

abbrev codes : String → Bytes
codes String.[] = []
codes (String.◌∷◌ c s) = code c ∷ codes s

eq_bytes-eq : (s t : Bytes) → eq_bytes s t ≡ true → s ≡ t
unfolding eq_bytes
eq_bytes-eq [] [] h = refl
eq_bytes-eq (a ∷ s) (b ∷ t) h = ground (arith, eq_bytes-eq s t)
eq_bytes-eq _ _ h = cc

-- A cache that remembers everything: a list of entries, the latest first.
get_list : List (Bytes × ParsedTopic) → Bytes → Option ParsedTopic
unfolding eq_bytes
get_list [] k = none
get_list ((j, v) ∷ c) k = if eq_bytes k j then some v else get_list c k

get_list-put :
    (c : List (Bytes × ParsedTopic)) (k j : Bytes) (e v : ParsedTopic)
    → get_list ((k, e) ∷ c) j ≡ some v
    → ((j ≡ k) × (v ≡ e)) ⊎ (get_list c j ≡ some v)
unfolding get_list
get_list-put c k j e v h = elim (Bool-cases (eq_bytes j k)) [
  | inl same ↦ inl (eq_bytes-eq j k same, ground arith)
  | inr other ↦ inr (ground arith)
]

abbrev list_cache : TopicCache
list_cache = record {
  Store = List (Bytes × ParsedTopic);
  get = get_list;
  put = λ c k e. (k, e) ∷ c;
  get-put = get_list-put;
}

-- IDs are the texts of two bytes.
abbrev two_bytes : Bytes → Result Bytes
two_bytes s = if length s == 2 then ok s else err (foreign "incorrect UUID length")

-- Every route leads to the IDs d1 and c1.
abbrev services : Directory
services = record { domain_id = λ _. ok (codes "d1"); channel_id = λ _ _. ok (codes "c1") }

abbrev route_topic : Bytes
route_topic = codes "m/home/c/lamp/on"

abbrev after_unresolved : List (Bytes × ParsedTopic)
after_unresolved = (publish two_bytes list_cache [] services route_topic false).1

empty_genuine : IsGenuineCache two_bytes list_cache []
unfolding get_list
empty_genuine = record { at = λ t v e. cc }

empty_resolved : IsResolvedCache two_bytes list_cache []
unfolding get_list
empty_resolved = record { genuine = empty_genuine; ids = λ t v e. cc }

abbrev route_entry : ParsedTopic
route_entry = record {
  domain = codes "home";
  channel = codes "lamp";
  subtopic = codes "on";
  error = nil;
}

abbrev one_call : Bool → List Call
one_call wanted = record { dir = services; topic = codes "m/d1/c/c1"; wanted = wanted } ∷ []

publish_transparent_example :
    SameAnswer
      (publish two_bytes list_cache
        (run two_bytes list_cache [] (one_call true))
        services
        (codes "m/d1/c/c1")
        false).0
      (publish_miss two_bytes list_cache
        (run two_bytes list_cache [] (one_call true))
        services
        (codes "m/d1/c/c1")
        false).0
publish_transparent_example =
    publish_transparent two_bytes list_cache [] (one_call true) services (codes "m/d1/c/c1")
      empty_genuine

publish_resolved_transparent_example :
    SameAnswer
      (publish two_bytes list_cache
        (run two_bytes list_cache [] (one_call true))
        services
        (codes "m/d1/c/c1")
        true).0
      (publish_miss two_bytes list_cache
        (run two_bytes list_cache [] (one_call true))
        services
        (codes "m/d1/c/c1")
        true).0
publish_resolved_transparent_example =
    publish_resolved_transparent two_bytes list_cache [] (one_call true) services
      (codes "m/d1/c/c1") (refl, tt) empty_resolved

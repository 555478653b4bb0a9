-- ===== src/Tests/RedisWorld.antt =====
-- A Redis that is a function from keys to values, kept in a part of the world.
use text.Mathlib.Text.{◌==◌}
use supermq.Common.{
  String, ◌≡◌, refl, ap, ◌∙◌, Bool, true, false, ◌||◌, Option, none, some, List, [], ◌∷◌,
  if◌then◌else◌,
}
use supermq.Errors.{ok}
use supermq.Redis.{Reading, value, nil_reply, Redis}

abbrev pub reading : Option String → Reading
reading none = nil_reply
reading (some v) = value v

pub is_value : (o : Option String) (v : String) → reading o ≡ value v → o ≡ some v
is_value none v h = cc
is_value (some a) v h = cc

pub is_nil_reply : (o : Option String) → reading o ≡ nil_reply → o ≡ none
is_nil_reply none h = refl
is_nil_reply (some a) h = cc

abbrev pub deleted_from : List String → (String → Option String) → String → Option String
deleted_from [] stored j = stored j
deleted_from (k ∷ ks) stored j = if j == k then none else deleted_from ks stored j

pub two_deleted :
    (a b : Bool) (x : Option String)
    → (if a then none else if b then none else x) ≡ (if a || b then none else x)
two_deleted true b x = refl
two_deleted false b x = refl

abbrev pub entry_redis :
    {W : Type 0} (entries : W → String → Option String) (put : (String → Option String) → W → W)
    → ((e : String → Option String) (w : W) → entries (put e w) ≡ e)
    → Redis W
entry_redis entries put got = record {
  stored = entries;
  get = λ k w. reading (entries w k);
  set = λ k v w. (ok tt, put (λ j. if j == k then some v else entries w j) w);
  del = λ ks w. (ok tt, put (deleted_from ks (entries w)) w);
  gets_value = λ k v w h. is_value (entries w k) v h;
  gets_nil = λ k w h. is_nil_reply (entries w k) h;
  sets = λ k v j w h. ap (λ f. f j) (got (λ i. if i == k then some v else entries w i) w);
  dels = λ k l j w h.
      ap (λ f. f j) (got (deleted_from (k ∷ l ∷ []) (entries w)) w)
      ∙ two_deleted (j == k) (j == l) (entries w j);
  dels_one = λ k j w h. ap (λ f. f j) (got (deleted_from (k ∷ []) (entries w)) w);
}

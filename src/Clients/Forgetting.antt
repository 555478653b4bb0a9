-- ===== src/Clients/Forgetting.antt =====
-- What Remove of clients/cache/clients.go forgets of a client.
use text.Mathlib.Text.{◌==◌}
use text.Mathlib.TextPositions.{eq_refl}
use text.Mathlib.TextLemmas.{append_cancel_left}
use supermq.Common.{
  String, ◌≡◌, ◌≢◌, refl, sym, ap, ◌∙◌, Bool, true, false, ◌||◌, Option, none, some, [], ◌∷◌,
  if◌then◌else◌,
}
use supermq.Errors.{Result, ok, err}
use supermq.Service.{or_wrap}
use supermq.Service.Laws.{Ends}
use supermq.Clients.Cache.{
  Reading, value, nil_reply, broken, Redis, key_entry, id_entry, repo_remove_entity, remove_read,
  cache_remove,
}

pub same_key : (a b : String) → key_entry a ≡ key_entry b → a ≡ b
same_key a b h = append_cancel_left "client_key:" a b h

pub some_eq : (a b : String) → ◌≡◌ {A = Option String} (some a) (some b) → a ≡ b
some_eq a b h = cc

pub true-false : true ≢ false
true-false e = cc

pub none_some : (a : String) → ◌≢◌ {A = Option String} none (some a)
none_some a e = cc

-- An entry that is still there was neither of the two that were deleted.
left_over :
    (a b : Bool) (x : Option String) (v : String)
    → (if a || b then none else x) ≡ some v
    → (a ≡ false) × (x ≡ some v)
left_over true b x v h = cc
left_over false true x v h = cc
left_over false false x v h = (refl, h)

module _ {W : Type 0} (redis : Redis W) where
  -- Each key is the one that is stored for its ID.
  abbrev pub Linked : W → Type 0
  Linked w =
      (key id : String)
      → redis.stored w (key_entry key) ≡ some id
      → redis.stored w (id_entry id) ≡ some key

  -- No key has the ID.
  abbrev pub Forgotten : String → W → Type 0
  Forgotten id w = (key : String) → redis.stored w (key_entry key) ≢ some id

  deleted_end :
      (id key : String) (w : W) (end : Result (Unit {0}) × W)
      → Linked w
      → redis.stored w (id_entry id) ≡ some key
      → end ≡ redis.del (key_entry key ∷ id_entry id ∷ []) w
      → Ends (λ _ w'. Forgotten id w') (λ _ _. Unit) (or_wrap repo_remove_entity (λ _. end) w)
  deleted_end id key w (err _, w') linked has same = tt
  deleted_end id key w (ok _, w') linked has same = λ other h.
      let now =
        sym (
          ap (λ z. redis.stored z.1 (key_entry other)) same
          ∙ redis.dels (key_entry key) (id_entry id) (key_entry other) w (ap (λ z. z.0) (sym same)))
        ∙ h in
      let (differs, before) =
        left_over (key_entry other == key_entry key) (key_entry other == id_entry id)
          (redis.stored w (key_entry other)) id now in
      let same_keys = some_eq other key (sym (linked other id before) ∙ has) in
      true-false
        (sym (ap (λ k. key_entry k == key_entry key) same_keys ∙ eq_refl (key_entry key)) ∙ differs)

  read_end :
      (id : String) (w : W) (reading : Reading)
      → Linked w
      → redis.get (id_entry id) w ≡ reading
      → Ends (λ _ w'. Forgotten id w') (λ _ _. Unit) (remove_read redis id reading w)
  read_end id w (broken e) linked same = tt
  read_end id w (value key) linked same =
      deleted_end id key w (redis.del (key_entry key ∷ id_entry id ∷ []) w) linked
        (redis.gets_value (id_entry id) key w same) refl
  read_end id w nil_reply linked same =
      λ key h. none_some key (sym (redis.gets_nil (id_entry id) w same) ∙ linked key id h)

  -- If each key is the one that is stored for its ID, no key has the ID after Remove has succeeded.
  pub cache_remove-Forgotten :
      (id : String) (w : W)
      → Linked w
      → Ends (λ _ w'. Forgotten id w') (λ _ _. Unit) (cache_remove redis id w)
  unfolding cache_remove
  cache_remove-Forgotten id w linked = read_end id w (redis.get (id_entry id) w) linked refl

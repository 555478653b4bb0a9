-- ===== src/Clients/Stale.antt =====
-- What Remove of clients/cache/clients.go leaves of a client that has been saved with two keys.
use Prim.Native.String.{◌++◌ as join}
use text.Mathlib.Text.{◌==◌}
use text.Mathlib.TextEquality.{eq_iff}
use text.Mathlib.TextPositions.{eq_refl}
use text.Mathlib.TextLemmas.{append_cancel_left, append_inj, append_assoc}
use supermq.Common.{
  String, ◌≡◌, ◌≢◌, refl, sym, ap, ◌∙◌, Bool, true, false, ◌||◌, Bool-cases, inl, inr, none, some,
  [], ◌∷◌, if◌then◌else◌,
}
use supermq.Errors.{Err, Result, ok, err, wrap}
use supermq.Service.{◌>>◌, fail_if, or_wrap}
use supermq.Service.Laws.{Ends, >>=-Ends}
use supermq.Clients.Cache.{
  Reading, value, nil_reply, broken, Redis, key_entry, id_entry, repo_create_entity,
  repo_remove_entity, empty_key, remove_read, cache_save, cache_remove,
}
use supermq.Clients.Forgetting.{same_key, some_eq, true-false}

differ : (a b : String) → a ≢ b → (a == b) ≡ false
differ a b ne = elim (Bool-cases (a == b)) [ inl e ↦ absurd (ne ((eq_iff a b).0 e)) | inr e ↦ e ]

-- The two kinds of entries have no key in common.
pub key-id : (key id : String) → key_entry key ≢ id_entry id
key-id key id h =
    let rests =
      append_cancel_left "client_" (join "key:" key) (join "id:" id)
        (sym (append_assoc "client_" "key:" key) ∙ h ∙ append_assoc "client_" "id:" id) in
    let first =
      (append_inj {s₁ = "k"} {s₂ = "i"} {t₁ = join "ey:" key} {t₂ = join "d:" id}
        (sym (append_assoc "k" "ey:" key) ∙ rests ∙ append_assoc "i" "d:" id) refl).0 in
    true-false (ap (λ s. s == "k") first)

module _ {W : Type 0} (redis : Redis W) where
  -- The key still has the ID.
  abbrev pub Stale : String → String → W → Type 0
  Stale key id w = redis.stored w (key_entry key) ≡ some id

  pub set_other :
      (key id k v : String) (e : Err) (w : W) (end : Result (Unit {0}) × W)
      → key_entry key ≢ k
      → Stale key id w
      → end ≡ redis.set k v w
      → Ends (λ _ w'. Stale key id w') (λ _ _. Unit) (or_wrap e (λ _. end) w)
  set_other key id k v e w (err _, w') ne stale same = tt
  set_other key id k v e w (ok _, w') ne stale same =
      ap (λ z. redis.stored z.1 (key_entry key)) same
      ∙ redis.sets k v (key_entry key) w (ap (λ z. z.0) (sym same))
      ∙ ap (λ b. if b then some v else redis.stored w (key_entry key)) (differ (key_entry key) k ne)
      ∙ stale

  pub set_own :
      (key id : String) (e : Err) (w : W) (end : Result (Unit {0}) × W)
      → end ≡ redis.set (key_entry key) id w
      → Ends (λ _ w'. Stale key id w') (λ _ _. Unit) (or_wrap e (λ _. end) w)
  set_own key id e w (err _, w') same = tt
  set_own key id e w (ok _, w') same =
      ap (λ z. redis.stored z.1 (key_entry key)) same
      ∙ redis.sets (key_entry key) id (key_entry key) w (ap (λ z. z.0) (sym same))
      ∙ ap (λ b. if b then some id else redis.stored w (key_entry key)) (eq_refl (key_entry key))

  -- The entries of a Save, after a test and a first SET that keep or make the key's.
  saving :
      (key id other : String) (test : Bool) (w : W)
      → ((w1 : W)
          → w1 ≡ w
          → Ends
              (λ _ w'. Stale key id w')
              (λ _ _. Unit)
              (or_wrap repo_create_entity (redis.set (key_entry other) id) w1))
      → Ends
          (λ _ w'. Stale key id w')
          (λ _ _. Unit)
          ((fail_if test (wrap repo_create_entity empty_key)
              >> (or_wrap repo_create_entity (redis.set (key_entry other) id)
                  >> or_wrap repo_create_entity (redis.set (id_entry id) other)))
            w)
  saving key id other true w first = tt
  saving key id other false w first =
      >>=-Ends (λ _ w'. Stale key id w') (λ _ _. Unit) (λ _ w'. Stale key id w') (λ _ _. Unit)
        (or_wrap repo_create_entity (redis.set (key_entry other) id) w)
        (λ _. or_wrap repo_create_entity (redis.set (id_entry id) other)) w (first w refl)
        (λ _ w1 stale.
          set_other key id (id_entry id) other repo_create_entity w1
            (redis.set (id_entry id) other w1) (key-id key id) stale refl)
        (λ _ _ _. tt)

  removed_other :
      (key other id : String) (w : W) (end : Result (Unit {0}) × W)
      → key_entry key ≢ key_entry other
      → Stale key id w
      → end ≡ redis.del (key_entry other ∷ id_entry id ∷ []) w
      → Ends (λ _ w'. Stale key id w') (λ _ _. Unit) (or_wrap repo_remove_entity (λ _. end) w)
  removed_other key other id w (err _, w') ne stale same = tt
  removed_other key other id w (ok _, w') ne stale same =
      ap (λ z. redis.stored z.1 (key_entry key)) same
      ∙ redis.dels (key_entry other) (id_entry id) (key_entry key) w (ap (λ z. z.0) (sym same))
      ∙ ap
          (λ b.
            if b || (key_entry key == id_entry id) then none else redis.stored w (key_entry key))
          (differ (key_entry key) (key_entry other) ne)
      ∙ ap (λ b. if b then none else redis.stored w (key_entry key))
          (differ (key_entry key) (id_entry id) (key-id key id))
      ∙ stale

  -- The key is the one that is stored for the ID.
  abbrev Last : String → String → W → Type 0
  Last key id w = redis.stored w (id_entry id) ≡ some key

  set-Last :
      (key id : String) (e : Err) (w : W) (end : Result (Unit {0}) × W)
      → end ≡ redis.set (id_entry id) key w
      → Ends (λ _ w'. Last key id w') (λ _ _. Unit) (or_wrap e (λ _. end) w)
  set-Last key id e w (err _, w') same = tt
  set-Last key id e w (ok _, w') same =
      ap (λ z. redis.stored z.1 (id_entry id)) same
      ∙ redis.sets (id_entry id) key (id_entry id) w (ap (λ z. z.0) (sym same))
      ∙ ap (λ b. if b then some key else redis.stored w (id_entry id)) (eq_refl (id_entry id))

  saving-Last :
      (key id : String) (test : Bool) (w : W)
      → Ends
          (λ _ w'. Last key id w')
          (λ _ _. Unit)
          ((fail_if test (wrap repo_create_entity empty_key)
              >> (or_wrap repo_create_entity (redis.set (key_entry key) id)
                  >> or_wrap repo_create_entity (redis.set (id_entry id) key)))
            w)
  saving-Last key id true w = tt
  saving-Last key id false w =
      >>=-Ends (λ _ _. Unit) (λ _ _. Unit) (λ _ w'. Last key id w') (λ _ _. Unit)
        (or_wrap repo_create_entity (redis.set (key_entry key) id) w)
        (λ _. or_wrap repo_create_entity (redis.set (id_entry id) key)) w
        (anyhow (or_wrap repo_create_entity (redis.set (key_entry key) id) w))
        (λ _ w1 _. set-Last key id repo_create_entity w1 (redis.set (id_entry id) key w1) refl)
        (λ _ _ _. tt)
    where
      anyhow : (end : Result (Unit {0}) × W) → Ends (λ _ _. Unit) (λ _ _. Unit) end
      anyhow (ok _, w') = tt
      anyhow (err _, w') = tt

  both :
      (P Q : W → Type 0) (end : Result (Unit {0}) × W)
      → Ends (λ _. P) (λ _ _. Unit) end
      → Ends (λ _. Q) (λ _ _. Unit) end
      → Ends (λ _ w'. P w' × Q w') (λ _ _. Unit) end
  both P Q (ok _, w') p q = (p, q)
  both P Q (err _, w') p q = tt

  removed-Last :
      (key other id : String) (w : W) (reading : Reading)
      → key ≢ other
      → Stale key id w
      → Last other id w
      → redis.get (id_entry id) w ≡ reading
      → Ends (λ _ w'. Stale key id w') (λ _ _. Unit) (remove_read redis id reading w)
  removed-Last key other id w (broken e) ne stale last same = tt
  removed-Last key other id w nil_reply ne stale last same = stale
  removed-Last key other id w (value read_key) ne stale last same =
      let read_other =
        some_eq other read_key (sym last ∙ redis.gets_value (id_entry id) read_key w same) in
      removed_other key read_key id w (redis.del (key_entry read_key ∷ id_entry id ∷ []) w)
        (λ h. ne (same_key key read_key h ∙ sym read_other)) stale refl

  -- After Save of two keys for one ID, Remove of the ID leaves the first key: if the three calls
  -- succeed, the cache still answers the first key with the ID.
  pub cache_remove-Stale :
      (key other id : String) (w : W)
      → key ≢ other
      → Ends
          (λ _ w'. Stale key id w')
          (λ _ _. Unit)
          ((cache_save redis key id >> (cache_save redis other id >> cache_remove redis id)) w)
  unfolding cache_save cache_remove
  cache_remove-Stale key other id w ne =
      >>=-Ends (λ _ w'. Stale key id w') (λ _ _. Unit) (λ _ w'. Stale key id w') (λ _ _. Unit)
        (cache_save redis key id w) (λ _. cache_save redis other id >> cache_remove redis id) w
        (saving key id key (key == "" || id == "") w
          (λ w1 _. set_own key id repo_create_entity w1 (redis.set (key_entry key) id w1) refl))
        (λ _ w1 stale.
          >>=-Ends (λ _ w'. Stale key id w' × Last other id w') (λ _ _. Unit)
            (λ _ w'. Stale key id w') (λ _ _. Unit) (cache_save redis other id w1)
            (λ _. cache_remove redis id) w1
            (both (Stale key id) (Last other id) (cache_save redis other id w1)
              (saving key id other (other == "" || id == "") w1 (λ w2 same.
                set_other key id (key_entry other) id repo_create_entity w2
                  (redis.set (key_entry other) id w2) (λ h. ne (same_key key other h))
                  (ap (λ v. redis.stored v (key_entry key)) same ∙ stale) refl))
              (saving-Last other id (other == "" || id == "") w1))
            (λ _ w2 h. removed-Last key other id w2 (redis.get (id_entry id) w2) ne h.0 h.1 refl)
            (λ _ _ _. tt))
        (λ _ _ _. tt)

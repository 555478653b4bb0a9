-- ===== src/Clients/Authenticating.antt =====
-- What Authenticate of clients/private/service.go answers, and what the cache keeps of it.
use text.Mathlib.Text.{◌==◌}
use supermq.Common.{
  String, ◌≡◌, ◌≢◌, refl, sym, ap, ◌∙◌, Bool, true, false, ◌||◌, some, if◌then◌else◌,
}
use supermq.Errors.{Err, is_nil, Result, ok, err, wrap}
use supermq.Service.{◌>>=◌, ◌>>◌, pure, fail, fail_if, read, or_wrap}
use supermq.Service.Laws.{Ends, >>=-Ends}
use supermq.Policies.Spicedb.{authorization_error}
use supermq.Authn.Packing.{Unpacked, auth_unpack}
use supermq.Clients.Cache.{
  Reading, value, nil_reply, broken, Redis, key_entry, id_entry, id_of, repo_create_entity,
  repo_missing, empty_key, cache_id, cache_save,
}
use supermq.Clients.Data.{Client}
use supermq.Clients.Forgetting.{some_eq, none_some}
use supermq.Clients.Stale.{Stale, set_own, set_other, key-id}
use supermq.Clients.Authenticate.{
  Secrets, bytes_of, is_not_encoded, admit_client, authenticate_cached, authenticate,
}

ok_eq : (a b : String) → ◌≡◌ {A = Result String} (ok a) (ok b) → a ≡ b
ok_eq a b h = cc

module _ {W : Type 0} (redis : Redis W) where
  -- The key is not empty, and has the ID in the cache.
  abbrev pub Held : String → String → W → Type 0
  Held key id w = ((key == "") ≡ false) × Stale redis key id w

  read-Held :
      (key id : String) (w : W) (empty : Bool) (reading : Reading)
      → (key == "") ≡ empty
      → redis.get (key_entry key) w ≡ reading
      → ◌≡◌ {A = Result String} (if empty then err repo_missing else id_of reading) (ok id)
      → Held key id w
  read-Held key id w true reading e same h = cc
  read-Held key id w false nil_reply e same h = cc
  read-Held key id w false (broken f) e same h = cc
  read-Held key id w false (value v) e same h =
      (e, redis.gets_value (key_entry key) v w same ∙ ap (λ i. some i) (ok_eq v id h))

  pub cache_id-Held : (key id : String) (w : W) → cache_id redis key w ≡ ok id → Held key id w
  unfolding cache_id
  cache_id-Held key id w h =
      read-Held key id w (key == "") (redis.get (key_entry key) w) refl refl h

  saved-Held :
      (key id : String) (w : W) (empty no_id : Bool)
      → (key == "") ≡ empty
      → Ends
          (λ _ w'. Held key id w')
          (λ _ _. Unit)
          ((fail_if (empty || no_id) (wrap repo_create_entity empty_key)
              >> (or_wrap repo_create_entity (redis.set (key_entry key) id)
                  >> or_wrap repo_create_entity (redis.set (id_entry id) key)))
            w)
  saved-Held key id w true no_id e = tt
  saved-Held key id w false true e = tt
  saved-Held key id w false false e =
      >>=-Ends (λ _ w'. Stale redis key id w') (λ _ _. Unit) (λ _ w'. Held key id w') (λ _ _. Unit)
        (or_wrap repo_create_entity (redis.set (key_entry key) id) w)
        (λ _. or_wrap repo_create_entity (redis.set (id_entry id) key)) w
        (set_own redis key id repo_create_entity w (redis.set (key_entry key) id w) refl)
        (λ _ w1 stale. both_held w1 (or_wrap repo_create_entity (redis.set (id_entry id) key) w1) (
          set_other redis key id (id_entry id) key repo_create_entity w1
            (redis.set (id_entry id) key w1) (key-id key id) stale refl))
        (λ _ _ _. tt)
    where
      both_held :
          (w1 : W) (end : Result (Unit {0}) × W)
          → Ends (λ _ w'. Stale redis key id w') (λ _ _. Unit) end
          → Ends (λ _ w'. Held key id w') (λ _ _. Unit) end
      both_held w1 (ok _, w') h = (e, h)
      both_held w1 (err _, w') h = tt

  cache_save-Held :
      (key id : String) (w : W)
      → Ends (λ _ w'. Held key id w') (λ _ _. Unit) (cache_save redis key id w)
  unfolding cache_save
  cache_save-Held key id w = saved-Held key id w (key == "") (id == "") refl

  held_answer :
      (key id : String) (w : W) (reading : Reading)
      → Stale redis key id w
      → redis.get (key_entry key) w ≡ reading
      → ((e : Err) → reading ≢ broken e)
      → id_of reading ≡ ok id
  held_answer key id w (broken e) stale same answers = absurd (answers e refl)
  held_answer key id w nil_reply stale same answers =
      absurd (none_some id (sym (redis.gets_nil (key_entry key) w same) ∙ stale))
  held_answer key id w (value v) stale same answers =
      ap (λ i. ok i) (some_eq v id (sym (redis.gets_value (key_entry key) v w same) ∙ stale))

  -- A read of a held key that does not fail gives the ID.
  Held-cache_id :
      (key id : String) (w : W)
      → Held key id w
      → ((e : Err) → redis.get (key_entry key) w ≢ broken e)
      → cache_id redis key w ≡ ok id
  unfolding cache_id
  Held-cache_id key id w (filled, stale) answers =
      ap (λ b. if b then err repo_missing else id_of (redis.get (key_entry key) w)) filled
      ∙ held_answer key id w (redis.get (key_entry key) w) stale refl answers

module _ {W : Type 0} (secrets : Secrets W) where
  admit_client-Held :
      (token : String) (c : Client) (w : W)
      → Ends
          (λ id w'. Held secrets.redis token id w')
          (λ _ _. Unit)
          (admit_client secrets token c w)
  admit_client-Held token c w =
      admitted (cache_save secrets.redis token c.id w) (cache_save-Held secrets.redis token c.id w)
    where
      admitted :
          (end : Result (Unit {0}) × W)
          → Ends (λ _ w'. Held secrets.redis token c.id w') (λ _ _. Unit) end
          → Ends
              (λ id w'. Held secrets.redis token id w')
              (λ _ _. Unit)
              ((or_wrap authorization_error (λ _. end) >> pure c.id) w)
      admitted (ok _, w') h = h
      admitted (err _, w') h = tt

  cached_Held :
      (token : String) (w : W) (answer : Result String)
      → cache_id secrets.redis token w ≡ answer
      → Ends
          (λ id w'. Held secrets.redis token id w')
          (λ _ _. Unit)
          (authenticate_cached secrets token answer w)
  cached_Held token w (ok id) same = cache_id-Held secrets.redis token id w same
  cached_Held token w (err _) same =
      unpacked (is_nil u.error || is_not_encoded u.error)
        (secrets.retrieve_by_secret u.key u.id u.prefix)
    where
      u : Unpacked
      u = auth_unpack (bytes_of token)

      from_repo :
          (found : Result Client)
          → Ends
              (λ id w'. Held secrets.redis token id w')
              (λ _ _. Unit)
              ((or_wrap authorization_error (λ w'. (found, w')) >>= admit_client secrets token) w)
      from_repo (err e) = tt
      from_repo (ok c) = admit_client-Held token c w

      unpacked :
          (test : Bool) (find : W → Result Client)
          → Ends
              (λ id w'. Held secrets.redis token id w')
              (λ _ _. Unit)
              ((if test
                  then or_wrap authorization_error (read find) >>= admit_client secrets token
                  else fail u.error)
                w)
      unpacked false find = tt
      unpacked true find = from_repo (find w)

  -- The ID that Authenticate returns is what the cache keeps for the token from then on.
  authenticate-Held :
      (token : String) (w : W)
      → Ends (λ id w'. Held secrets.redis token id w') (λ _ _. Unit) (authenticate secrets token w)
  unfolding authenticate
  authenticate-Held token w = cached_Held token w (cache_id secrets.redis token w) refl

  at_end :
      (token id : String) (w1 : W) (end : Result String × W)
      → end ≡ (ok id, w1)
      → Ends (λ i w'. Held secrets.redis token i w') (λ _ _. Unit) end
      → Held secrets.redis token id w1
  at_end token id w1 (ok i, w') same (filled, stale) = (
    filled,
    ap (λ z. secrets.redis.stored z.1 (key_entry token)) (sym same)
        ∙ stale
        ∙ ap (λ j. some j) (ok_eq i id (ap (λ z. z.0) same)),
  )
  at_end token id w1 (err e, w') same h = cc

  -- A token that Authenticate has accepted is accepted later for the same client, and nothing
  -- changes, whatever has become of the client: if the cache keeps its entry and answers.
  pub authenticate_again :
      (token id : String) (w w1 w2 : W)
      → authenticate secrets token w ≡ (ok id, w1)
      → secrets.redis.stored w2 (key_entry token) ≡ secrets.redis.stored w1 (key_entry token)
      → ((e : Err) → secrets.redis.get (key_entry token) w2 ≢ broken e)
      → authenticate secrets token w2 ≡ (ok id, w2)
  unfolding authenticate
  authenticate_again token id w w1 w2 accepted kept answers =
      let (filled, stale) =
        at_end token id w1 (authenticate secrets token w) accepted (authenticate-Held token w) in
      ap (λ r. authenticate_cached secrets token r w2)
        (Held-cache_id secrets.redis token id w2 (filled, kept ∙ stale) answers)

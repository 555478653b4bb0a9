-- ===== src/Domains/Seen.antt =====
-- That a change of status in domains/service.go is seen by domains/private/service.go.
use text.Mathlib.Text.{◌==◌}
use text.Mathlib.TextPositions.{eq_refl}
use supermq.Common.{
  String, ◌≡◌, ◌≢◌, refl, sym, ap, ◌∙◌, Bool, true, false, Option, none, some, [], ◌∷◌,
  if◌then◌else◌,
}
use supermq.Errors.{Err, Result, ok, err, wrap}
use supermq.Service.{
  ◌>>=◌, ◌>>◌, pure, fail_if, or_wrap, update_entity, view_entity, remove_entity, invalid_status,
}
use supermq.Roles.Data.{Session, Provisioner}
use supermq.Redis.{Reading, value, nil_reply, broken, repo_create_entity, repo_remove_entity}
use supermq.Domains.Data.{Status, enabled, disabled, freezed, deleted, all, Domain, DomainReq}
use supermq.Domains.Manage.{change_status, status_req}
use supermq.Domains.Cache.{
  status_text, empty_domain_id, status_of, cached_status, save_status, remove_cached_status,
}
use supermq.Domains.Private.{DomainLookups, StatusIs, keep_status, status_or_read, retrieve_status}

known_text : (s : Status) → (status_text s == "unknown") ≡ false
known_text enabled = refl
known_text disabled = refl
known_text freezed = refl
known_text deleted = refl
known_text all = refl

none_some : (a : String) → ◌≢◌ {A = Option String} none (some a)
none_some a e = cc

not_ok : {A : Type 0} (e : Err) (a : A) → ◌≢◌ {A = Result A} (err e) (ok a)
not_ok e a h = cc

module _ {W : Type 0} (lookups : DomainLookups W) where
  open lookups use {world, redis}

  -- The cache has no status of the domain, and the repository has this one.
  abbrev Fresh : String → Status → W → Type 0
  Fresh id s w =
      ((id == "") ≡ false)
      × (redis.stored w id ≡ none)
      × StatusIs s (world.repo.retrieve_domain id w)

  kept : (s : Status) (a b : Result Domain) → b ≡ a → StatusIs s a → StatusIs s b
  kept s (ok d) (ok e) same h = ap (λ r. status_in r) same ∙ h
    where
      status_in : Result Domain → Status
      status_in (ok c) = c.status
      status_in (err _) = s
  kept s (ok d) (err e) same h = cc
  kept s (err f) b same h = absurd h

  removed :
      (id : String) (s : Status) (w1 : W) (empty : Bool) (w2 : W)
      → (id == "") ≡ empty
      → StatusIs s (world.repo.retrieve_domain id w1)
      → (fail_if empty (wrap repo_remove_entity empty_domain_id)
            >> or_wrap repo_remove_entity (redis.del (id ∷ [])))
          w1
        ≡ (ok tt, w2)
      → Fresh id s w2
  removed id s w1 true w2 e shown same = cc
  removed id s w1 false w2 e shown same =
      let ended = del_ended (redis.del (id ∷ []) w1) same in
      (
        e,
        ap (λ v. redis.stored v id) (sym ended.1)
            ∙ redis.dels_one id id w1 ended.0
            ∙ ap (λ b. if b then none else redis.stored w1 id) (eq_refl id),
        kept s (world.repo.retrieve_domain id w1) (world.repo.retrieve_domain id w2)
            (ap (world.repo.retrieve_domain id) (sym ended.1) ∙ lookups.del_keeps (id ∷ []) id w1)
            shown,
      )
    where
      del_ended :
          (end : Result (Unit {0}) × W)
          → or_wrap repo_remove_entity (λ _. end) w1 ≡ (ok tt, w2)
          → (end.0 ≡ ok tt) × (end.1 ≡ w2)
      del_ended (ok _, w') h = (refl, ap (λ z. z.1) h)
      del_ended (err f, w') h = absurd (not_ok (wrap repo_remove_entity f) tt (ap (λ z. z.0) h))

  changed_Fresh :
      (p : Provisioner) (s : Status) (session : Session) (id : String) (w w2 : W) (d : Domain)
      → ((i : String) → world.remove_status i ≡ remove_cached_status redis i)
      → change_status world p s session id w ≡ (ok d, w2)
      → Fresh id s w2
  unfolding change_status remove_cached_status
  changed_Fresh p s session id w w2 d cached changed =
      after_update (world.repo.update_domain id req w) refl changed
    where
      req : DomainReq
      req = status_req session s (world.roles.now w)

      after_remove :
          (c : Domain) (w1 : W) (end : Result (Unit {0}) × W)
          → StatusIs s (world.repo.retrieve_domain id w1)
          → world.remove_status id w1 ≡ end
          → (or_wrap remove_entity (λ _. end) >> pure c) w1 ≡ (ok d, w2)
          → Fresh id s w2
      after_remove c w1 (ok _, w') shown same h =
          removed id s w1 (id == "") w2 refl shown
            (sym (ap (λ m. m w1) (cached id)) ∙ same ∙ ap (λ z. (ok tt, z.1)) h)
      after_remove c w1 (err f, w') shown same h =
          absurd (not_ok (wrap remove_entity f) d (ap (λ z. z.0) h))

      after_update :
          (end : Result Domain × W)
          → world.repo.update_domain id req w ≡ end
          → (or_wrap update_entity (λ _. end) >>= λ dom.
                or_wrap remove_entity (world.remove_status id) >> pure dom)
              w
            ≡ (ok d, w2)
          → Fresh id s w2
      after_update (err f, w') same h = absurd (not_ok (wrap update_entity f) d (ap (λ z. z.0) h))
      after_update (ok c, w1) same h =
          after_remove c w1 (world.remove_status id w1) (lookups.updates id req s w w1 c refl same)
            refl h

  save_status_succeeds :
      (id : String) (s : Status) (w : W)
      → ((k v : String) (w1 : W) → (redis.set k v w1).0 ≡ ok tt)
      → (id == "") ≡ false
      → (save_status redis id s w).0 ≡ ok tt
  unfolding save_status
  save_status_succeeds id s w works filled =
      ap (λ b. tested b (status_text s == "unknown")) filled
      ∙ ap (tested false) (known_text s)
      ∙ set_ends (redis.set id (status_text s) w) (works id (status_text s) w)
    where
      tested : Bool → Bool → Result (Unit {0})
      tested a b =
          ((fail_if a (wrap repo_create_entity empty_domain_id)
              >> (fail_if b (wrap repo_create_entity invalid_status)
                  >> or_wrap repo_create_entity (redis.set id (status_text s))))
            w).0

      set_ends :
          (end : Result (Unit {0}) × W)
          → end.0 ≡ ok tt
          → (or_wrap repo_create_entity (λ _. end) w).0 ≡ ok tt
      set_ends (ok _, w') h = refl
      set_ends (err e, w') h = cc

  read_status :
      (id : String) (s : Status) (w : W) (found : Result Domain)
      → ((k v : String) (w1 : W) → (redis.set k v w1).0 ≡ ok tt)
      → (id == "") ≡ false
      → StatusIs s found
      → ((or_wrap view_entity (λ w'. (found, w')) >>= keep_status lookups id) w).0 ≡ ok s
  read_status id s w (err e) works filled shown = absurd shown
  read_status id s w (ok c) works filled shown =
      saved (save_status redis id c.status w) (save_status_succeeds id c.status w works filled)
      ∙ ap (λ t. ok t) shown
    where
      saved :
          (end : Result (Unit {0}) × W)
          → end.0 ≡ ok tt
          → ((or_wrap update_entity (λ _. end) >> pure c.status) w).0 ≡ ok c.status
      saved (ok _, w') h = refl
      saved (err e, w') h = cc

  uncached_read :
      (id : String) (s : Status) (w : W) (reading : Reading)
      → ((k v : String) (w1 : W) → (redis.set k v w1).0 ≡ ok tt)
      → Fresh id s w
      → redis.get id w ≡ reading
      → (status_or_read lookups id (status_of redis reading) w).0 ≡ ok s
  uncached_read id s w (value v) works (filled, missing, shown) same =
      absurd (none_some v (sym missing ∙ redis.gets_value id v w same))
  uncached_read id s w nil_reply works (filled, missing, shown) same =
      read_status id s w (world.repo.retrieve_domain id w) works filled shown
  uncached_read id s w (broken e) works (filled, missing, shown) same =
      read_status id s w (world.repo.retrieve_domain id w) works filled shown

  -- After EnableDomain, DisableDomain or FreezeDomain has returned a domain, RetrieveStatus returns
  -- the new status, whatever the cache held before: if the service removes statuses from the same
  -- cache, and every SET of Redis succeeds.
  pub retrieve_status-change_status :
      (p : Provisioner) (s : Status) (session : Session) (id : String) (w w2 : W) (d : Domain)
      → ((i : String) → world.remove_status i ≡ remove_cached_status redis i)
      → ((k v : String) (w1 : W) → (redis.set k v w1).0 ≡ ok tt)
      → change_status world p s session id w ≡ (ok d, w2)
      → (retrieve_status lookups id w2).0 ≡ ok s
  unfolding retrieve_status cached_status
  retrieve_status-change_status p s session id w w2 d cached works changed =
      uncached_read id s w2 (redis.get id w2) works
        (changed_Fresh p s session id w w2 d cached changed) refl

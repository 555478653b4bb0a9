-- ===== src/Clients/Disabling.antt =====
-- What Disable of clients/service.go makes of the cache, and SetParentGroup of the policies.
use supermq.Common.{String, ◌≡◌, refl, sym, ap, ◌∙◌, subst, Bool, true, false, ◌==◌ as equal}
use supermq.Errors.{Err, Result, ok, err}
use supermq.Service.{
  ◌>>=◌, ◌>>◌, read, fail_if, pure, or_wrap, view_entity, update_entity, remove_entity,
  status_already_assigned,
}
use supermq.Service.Laws.{Ends}
use supermq.Roles.Data.{Session, Provisioner}
use supermq.Clients.Cache.{key_entry, id_entry, cache_remove}
use supermq.Clients.Forgetting.{Linked, Forgotten, cache_remove-Forgotten}
use supermq.Clients.Data.{Client, no_client, disabled, status_number, ClientWorld}
use supermq.Clients.Manage.{
  disable_client_error, change_client_status, uncache_client, disable_client,
}

module _ {W : Type 0} (world : ClientWorld W) (p : Provisioner) (session : Session)
    (id : String) where
  open world use {roles, repo, redis}

  abbrev pub Forgets : Result Client × W → Type 0
  Forgets = Ends (λ _ w'. Forgotten redis id w') (λ _ _. Unit)

  -- The cache is as it was, and the client that is returned has the ID.
  abbrev Changed : W → Result Client × W → Type 0
  Changed w =
      Ends (λ c w'. (c.id ≡ id) × ((k : String) → redis.stored w' k ≡ redis.stored w k))
        (λ _ _. Unit)

  removed :
      (c : Client) (end : Result (Unit {0}) × W) (w : W)
      → Ends (λ _ w'. Forgotten redis id w') (λ _ _. Unit) end
      → Forgets ((or_wrap remove_entity (λ _. end) >> pure c) w)
  removed c (ok _, w') w h = h
  removed c (err _, w') w h = tt

  uncached :
      (end : Result Client × W) (w : W)
      → Linked redis w
      → Changed w end
      → Forgets (((λ _. end) >>= uncache_client world p) w)
  uncached (err _, w') w linked h = tt
  uncached (ok c, w') w linked (same, kept) = removed c (cache_remove redis c.id w') w' (
      subst (λ i. Ends (λ _ w2. Forgotten redis id w2) (λ _ _. Unit) (cache_remove redis i w'))
        (sym same)
        (cache_remove-Forgotten redis id w' (λ key other h.
          kept (id_entry other) ∙ linked key other (sym (kept (key_entry key)) ∙ h))))

  Changed-end :
      (c : Client) (w : W) (end : Result Client × W)
      → c.id ≡ id
      → end ≡ repo.change_status c w
      → Changed w (or_wrap update_entity (λ _. end) w)
  Changed-end c w (err _, w') same e = tt
  Changed-end c w (ok d, w') same e = (
    repo.returns_id c d w (ap (λ z. z.0) (sym e)) ∙ same,
    λ k. ap (λ z. redis.stored z.1 k) e ∙ world.change_keeps c k w,
  )

  tested :
      (test : Bool) (c : Client) (w : W)
      → c.id ≡ id
      → Changed w
          ((fail_if test status_already_assigned >> or_wrap update_entity (repo.change_status c)) w)
  tested true c w same = tt
  tested false c w same = Changed-end c w (repo.change_status c w) same refl

  wrapped :
      (end : Result Client × W) (e : Err) (w : W)
      → Changed w end
      → Changed w (or_wrap e (λ _. end) w)
  wrapped (ok _, w') e w h = h
  wrapped (err _, w') e w h = tt

  found-Changed :
      (found : Result Client) (c : Client) (w : W)
      → c.id ≡ id
      → Changed w (
          (or_wrap view_entity (read (λ _. found)) >>= λ stored.
          fail_if
            (equal (status_number stored.status) (status_number c.status))
            status_already_assigned
          >> or_wrap update_entity (repo.change_status (record c { updated_by = session.user_id })))
            w)
  found-Changed (err _) c w same = tt
  found-Changed (ok stored) c w same =
      tested (equal (status_number stored.status) (status_number c.status))
        (record c { updated_by = session.user_id }) w same

  -- If each key in the cache is the one that is stored for its ID, the cache has no key for the
  -- client after Disable has succeeded.
  pub disable_client-Forgets :
      (w : W) → Linked redis w → Forgets (disable_client world p session id w)
  unfolding disable_client change_client_status
  disable_client-Forgets w linked =
      let c = record no_client { id = id; status = disabled; updated_at = roles.now w } in
      uncached _ w linked (
        wrapped (change_client_status world p session c w) disable_client_error w
          (found-Changed (repo.retrieve_by_id id w) c w refl))

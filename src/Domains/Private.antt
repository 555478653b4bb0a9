-- ===== src/Domains/Private.antt =====
-- The private service of domains, domains/private/service.go, less DeleteUserFromDomains, which only
-- reads.
use supermq.Common.{String, some, ◌≡◌, List}
use supermq.Errors.{Result, ok, err}
use supermq.Service.{Action, ◌>>=◌, ◌>>◌, pure, read, or_wrap, view_entity, update_entity}
use supermq.Service.Laws.{Keeps}
use supermq.Redis.{Redis}
use supermq.Domains.Data.{Status, Domain, DomainReq, DomainWorld}
use supermq.Domains.Cache.{cached_status, save_status, cached_domain_id, save_domain_id}

-- A domain that is found has the status.
abbrev pub StatusIs : Status → Result Domain → Type 0
StatusIs s (ok d) = d.status ≡ s
StatusIs s (err _) = ⊥

-- The domains with their cache: Redis is another system than the repository, whose reads show a
-- status that an UPDATE has set.
pub record DomainLookups (W : Type 0) : Type 0 where
  pub world : DomainWorld W
  pub redis : Redis W
  pub retrieve_domain_by_route : String → W → Result Domain
  pub del_keeps :
      (ks : List String) (id : String) → Keeps (world.repo.retrieve_domain id) (redis.del ks)
  pub updates :
      (id : String) (req : DomainReq) (s : Status) (w w1 : W) (d : Domain)
      → req.status ≡ some s
      → world.repo.update_domain id req w ≡ (ok d, w1)
      → StatusIs s (world.repo.retrieve_domain id w1)

module _ {W : Type 0} (lookups : DomainLookups W) where
  open lookups use {world, redis, retrieve_domain_by_route}

  -- RetrieveStatus once the domain is read.
  abbrev pub keep_status : String → Domain → Action W Status
  keep_status id d = or_wrap update_entity (save_status redis id d.status) >> pure d.status

  -- RetrieveStatus, given what the cache answers.
  abbrev pub status_or_read : String → Result Status → Action W Status
  status_or_read id (ok s) = pure s
  status_or_read id (err _) =
      or_wrap view_entity (read (world.repo.retrieve_domain id)) >>= keep_status id

  -- RetrieveStatus
  unfoldable pub retrieve_status : String → Action W Status
  retrieve_status id w = status_or_read id (cached_status redis id w) w

  -- RetrieveIDByRoute once the domain is read.
  abbrev pub keep_domain_id : String → Domain → Action W String
  keep_domain_id route d = or_wrap update_entity (save_domain_id redis route d.id) >> pure d.id

  -- RetrieveIDByRoute, given what the cache answers.
  abbrev pub id_or_read : String → Result String → Action W String
  id_or_read route (ok id) = pure id
  id_or_read route (err _) =
      or_wrap view_entity (read (retrieve_domain_by_route route)) >>= keep_domain_id route

  -- RetrieveIDByRoute
  unfoldable pub retrieve_domain_id_by_route : String → Action W String
  retrieve_domain_id_by_route route w = id_or_read route (cached_domain_id redis route w) w

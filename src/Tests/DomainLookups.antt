-- ===== src/Tests/DomainLookups.antt =====
-- A domain whose status is cached, disabled and looked up.
use text.Mathlib.Text.{◌==◌}
use supermq.Common.{◌≡◌, refl, sym, ap, ◌∙◌, none, some, if◌then◌else◌}
use supermq.Errors.{ok}
use supermq.Domains.Data.{disabled}
use supermq.Domains.Manage.{change_status}
use supermq.Domains.Cache.{remove_cached_status}
use supermq.Domains.Private.{DomainLookups, retrieve_status}
use supermq.Domains.Seen.{retrieve_status-change_status}
use supermq.Tests.RoleWorld.{domain_roles, admin_session}
use supermq.Tests.DomainWorld.{World, d1, or_status}
use supermq.Tests.Domains.{domain_world, domain_redis, empty_world}

abbrev one_lookup : DomainLookups World
one_lookup = record {
  world = domain_world;
  redis = domain_redis;
  retrieve_domain_by_route = λ route w. ok d1;
  del_keeps = λ ks id w. refl;
  updates = λ id req s w w1 d asked done.
      sym (ap (λ z. z.1.status) done) ∙ ap (λ o. or_status o w.status) asked;
}

-- The status of d1 is in the cache.
abbrev cached_world : World
cached_world = record empty_world { entries = λ k. if k == "d1" then some "enabled" else none }

abbrev disabled_world : World
disabled_world =
    (change_status domain_world domain_roles disabled admin_session "d1" cached_world).1

disabled_now :
    change_status domain_world domain_roles disabled admin_session "d1" cached_world
    ≡ (ok (record d1 { status = disabled }), disabled_world)
unfolding change_status remove_cached_status
disabled_now = refl

retrieve_status-change_status_example :
    (retrieve_status one_lookup "d1" disabled_world).0 ≡ ok disabled
retrieve_status-change_status_example =
    retrieve_status-change_status one_lookup domain_roles disabled admin_session "d1" cached_world
      disabled_world (record d1 { status = disabled }) (λ i. refl) (λ k v w. refl) disabled_now

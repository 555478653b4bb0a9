-- ===== src/Tests/Clients.antt =====
-- The theorems on clients/service.go and clients/cache/clients.go applied to a Redis that is a
-- function, and one client.
use text.Mathlib.Text.{◌==◌}
use text.Mathlib.TextEquality.{eq_iff}
use supermq.Common.{
  String, ◌≡◌, ◌≢◌, refl, sym, ap, ◌∙◌, Bool, true, false, Option, none, some, [], if◌then◌else◌,
}
use supermq.Errors.{Result, ok}
use supermq.Service.{◌>>◌}
use supermq.Service.Laws.{Ends}
use supermq.Roles.Data.{RoleWorld}
use supermq.Clients.Cache.{Redis, key_entry, id_entry, cache_save, cache_remove}
use supermq.Clients.Forgetting.{
  same_key, some_eq, true-false, Linked, Forgotten, cache_remove-Forgotten,
}
use supermq.Clients.Stale.{key-id, Stale, cache_remove-Stale}
use supermq.Clients.Data.{Client, no_client, ClientWorld}
use supermq.Clients.Manage.{disable_client}
use supermq.Clients.Disabling.{Forgets, disable_client-Forgets}
use supermq.Tests.RedisWorld.{entry_redis}
use supermq.Tests.RoleWorld.{Set, lens_store, one_role, domain_roles, admin_session}

pub record World : Type 0 where
  pub relationships : Set
  pub entries : String → Option String

abbrev pub function_redis : Redis World
function_redis = entry_redis (λ w. w.entries) (λ e w. record w { entries = e }) (λ e w. refl)

abbrev pub client_roles : RoleWorld World
client_roles = record {
  policy = lens_store (λ w. w.relationships) (λ s w. record w { relationships = s }) (λ s w. refl);
  repo = one_role;
  new_sid = λ w. (ok "r2", w);
  now = λ w. 7;
  sid_keeps = λ w r. refl;
  add_roles_keeps = λ rs w r. refl;
  remove_roles_keeps = λ ids w r. refl;
  add_actions_keeps = λ ro acts w r. refl;
  remove_actions_keeps = λ ro acts w r. refl;
  remove_all_actions_keeps = λ ro w r. refl;
  add_members_keeps = λ ro ms w r. refl;
  remove_members_keeps = λ ro ms w r. refl;
  remove_all_members_keeps = λ ro w r. refl;
}

pub same_id : (c d : Client) → ◌≡◌ {A = Result Client} (ok c) (ok d) → d.id ≡ c.id
same_id c d h = let same : c ≡ d = cc in ap (λ x. x.id) (sym same)

abbrev pub one_client : ClientWorld World
one_client = record {
  roles = client_roles;
  repo = record {
    save = λ cs w. (ok cs, w);
    update = λ c w. (ok c, w);
    update_tags = λ c w. (ok c, w);
    update_secret = λ c w. (ok c, w);
    change_status = λ c w. (ok c, w);
    retrieve_by_id = λ id w. ok (record no_client { id = id });
    retrieve_by_id_with_roles = λ id user w. ok (record no_client { id = id });
    remove = λ ids w. (ok tt, w);
    set_parent_group = λ c w. (ok tt, w);
    remove_parent_group = λ c w. (ok tt, w);
    retrieve_parent_group_clients = λ g w. ok [];
    unset_parent_group_from_client = λ g w. (ok tt, w);
    does_client_have_connections = λ id w. ok false;
    returns_id = λ c d w h. same_id c d h;
  };
  redis = function_redis;
  retrieve_group =
      λ id w. ok (record { id = id; domain_id = "d1"; parent_group_id = ""; status = 0 });
  new_id = λ w. (ok "k2", w);
  remove_client_connections = λ id w. (ok tt, w);
  change_keeps = λ c k w. refl;
  set_parent_keeps = λ c w r. refl;
}

abbrev pub empty_world : World
empty_world = record { relationships = λ r. false; entries = λ k. none }

-- One key with its ID.
abbrev pub cached_world : World
cached_world = record empty_world {
  entries = λ j.
      if j == id_entry "k1" then some "s1" else if j == key_entry "s1" then some "k1" else none;
}

linked_entry :
    (key id : String) (a b : Bool)
    → (key_entry key == id_entry "k1") ≡ a
    → (key_entry key == key_entry "s1") ≡ b
    → (if a then some "s1" else if b then some "k1" else none) ≡ some id
    → cached_world.entries (id_entry id) ≡ some key
linked_entry key id true b e f h =
    absurd (key-id key "k1" ((eq_iff (key_entry key) (id_entry "k1")).0 e))
linked_entry key id false true e f h =
    ap (λ i. cached_world.entries (id_entry i)) (sym (some_eq "k1" id h))
    ∙ ap (λ k. some k) (sym (same_key key "s1" ((eq_iff (key_entry key) (key_entry "s1")).0 f)))
linked_entry key id false false e f h = cc

cached-Linked : Linked function_redis cached_world
cached-Linked key id h =
    linked_entry key id (key_entry key == id_entry "k1") (key_entry key == key_entry "s1") refl refl
      h

two_keys : ◌≢◌ {A = String} "s1" "s2"
two_keys h = true-false (ap (λ s. s == "s1") h)

cache_remove-Forgotten_example :
    Ends
      (λ _ w'. Forgotten function_redis "k1" w')
      (λ _ _. Unit)
      (cache_remove function_redis "k1" cached_world)
cache_remove-Forgotten_example =
    cache_remove-Forgotten function_redis "k1" cached_world cached-Linked

cache_remove-Stale_example :
    Ends
      (λ _ w'. Stale function_redis "s1" "k1" w')
      (λ _ _. Unit)
      ((cache_save function_redis "s1" "k1"
          >> (cache_save function_redis "s2" "k1" >> cache_remove function_redis "k1"))
        empty_world)
cache_remove-Stale_example = cache_remove-Stale function_redis "s1" "s2" "k1" empty_world two_keys

disable_client_example :
    Forgets one_client domain_roles admin_session "k1"
      (disable_client one_client domain_roles admin_session "k1" cached_world)
disable_client_example =
    disable_client-Forgets one_client domain_roles admin_session "k1" cached_world cached-Linked

-- ===== src/Tests/ChannelWorld.antt =====
-- A world of the channels service with one channel: relationships, its parent group and connections.
use text.Mathlib.Text.{◌==◌}
use text.Mathlib.TextEquality.{eq_iff}
use supermq.Common.{
  String, ◌≡◌, refl, sym, ap, ◌∙◌, Bool, true, false, none, ◌&&◌, ◌||◌, List, [], ◌∷◌, ◌++◌, All,
}
use supermq.Policies.{Relationship}
use supermq.Errors.{Err, Result, ok, err, new}
use supermq.Roles.Data.{RoleWorld}
use supermq.Domains.Data as D
use supermq.Channels.Data.{
  Channel, no_channel, Connection, same_connection, among, Entity, Repository, ChannelWorld,
}
use supermq.Channels.Private.{PrivateWorld}
use supermq.Tests.RoleWorld.{Set, lens_store, one_role}

pub record World : Type 0 where
  pub relationships : Set
  pub parent : String
  pub connections : List Connection
  pub exists : Bool

abbrev pub channel_roles : RoleWorld World
channel_roles = record {
  policy = lens_store (λ w. w.relationships) (λ s w. record w { relationships = s }) (λ s w. refl);
  repo = one_role;
  new_sid = λ w. (ok "r2", w);
  now = λ w. 7;
  sid_keeps = λ w r. refl;
  add_roles_keeps = λ rs w r. refl;
  remove_roles_keeps = λ ids w r. refl;
  add_actions_keeps = λ ro acts w r. refl;
  remove_actions_keeps = λ ro acts w r. refl;
  remove_all_actions_keeps = λ ro w r. refl;
  add_members_keeps = λ ro ms w r. refl;
  remove_members_keeps = λ ro ms w r. refl;
  remove_all_members_keeps = λ ro w r. refl;
}

abbrev pub missing : Err
missing = new none "not found"

abbrev pub c1 : String → Channel
c1 parent = record no_channel { id = "c1"; parent_group = parent; domain = "d1" }

abbrev pub here : Bool → String → Result Channel
here true parent = ok (c1 parent)
here false parent = err missing

abbrev pub parent_at : Bool → String → String
parent_at true parent = parent
parent_at false parent = ""

abbrev pub put_parent : Bool → String → World → Result (Unit {0}) × World
put_parent true parent w = (ok tt, record w { parent = parent })
put_parent false parent w = (err missing, w)

abbrev pub check : Bool → Result (Unit {0})
check true = ok tt
check false = err missing

pub found :
    (is : Bool) (id parent : String) (c : Channel)
    → (id == "c1") ≡ is
    → here is parent ≡ ok c
    → (c.id ≡ id) × (parent_at is parent ≡ c.parent_group)
found true id parent c e h =
    let same : c1 parent ≡ c = cc in
    (sym (ap (λ x. x.id) same) ∙ sym ((eq_iff id "c1").0 e), ap (λ x. x.parent_group) same)
found false id parent c e h = cc

pub put :
    (is : Bool) (id parent : String) (w : World)
    → (id == "c1") ≡ is
    → (put_parent is parent w).0 ≡ ok tt
    → parent_at (id == "c1") (put_parent is parent w).1.parent ≡ parent
put true id parent w e h = ap (λ b. parent_at b parent) e
put false id parent w e h = cc

pub kept :
    (is : Bool) (parent : String) (w : World) (e : Err)
    → (put_parent is parent w).0 ≡ err e
    → (put_parent is parent w).1.parent ≡ w.parent
kept true parent w e h = cc
kept false parent w e h = refl

or_assoc : (a b c : Bool) → (a || (b || c)) ≡ ((a || b) || c)
or_assoc true b c = refl
or_assoc false b c = refl

pub among-append :
    (cs ds : List Connection) (c : Connection) → among (cs ++ ds) c ≡ (among cs c || among ds c)
unfolding among
among-append [] ds c = refl
among-append (x ∷ cs) ds c =
    ap (λ b. same_connection x c || b) (among-append cs ds c)
    ∙ or_assoc (same_connection x c) (among cs c) (among ds c)

pub not_there : (b : Bool) (e : Err) → check b ≡ err e → b ≡ false
not_there true e h = cc
not_there false e h = refl

pub none_known : (w : World) (ids : List String) → All (λ id. (false && (id == "c1")) ≡ false) ids
none_known w [] = tt
none_known w (id ∷ ids) = (refl, none_known w ids)

pub failed_add : (e : Err) (a b : Bool) → ◌≡◌ {A = Result (Unit {0})} (ok tt) (err e) → a ≡ b
failed_add e a b h = cc

pub parent_kept :
    (is : Bool) (parent : String) (w : World) (r : Relationship)
    → (put_parent is parent w).1.relationships r ≡ w.relationships r
parent_kept true parent w r = refl
parent_kept false parent w r = refl

abbrev pub channel_table : Repository World
channel_table = record {
  save = λ cs w. (err missing, w);
  update = λ c w. (ok c, w);
  update_tags = λ c w. (ok c, w);
  change_status = λ c w. (ok c, w);
  retrieve_by_id = λ id w. here (id == "c1") w.parent;
  retrieve_by_id_with_roles = λ id user w. here (id == "c1") w.parent;
  remove = λ ids w. (ok tt, record w { exists = false });
  set_parent_group = λ c w. put_parent (c.id == "c1") c.parent_group w;
  remove_parent_group = λ c w. put_parent (c.id == "c1") "" w;
  retrieve_parent_group_channels = λ g w. ok [];
  unset_parent_group_from_channels = λ g w. (ok tt, w);
  add_connections = λ cs w. (ok tt, record w { connections = cs ++ w.connections });
  remove_connections = λ cs w. (ok tt, w);
  check_connection = λ c w. check (among w.connections c);
  does_channel_have_connections = λ id w. ok false;
  client_authorize = λ c w. check (among w.connections c);
  is_not_found = λ e. true;
  known = λ w id. w.exists && (id == "c1");
  parent = λ w id. parent_at (id == "c1") w.parent;
  connected = λ w c. among w.connections c;
  save_fails = λ cs w e id h. refl;
  remove_forgets = λ ids w h. none_known w ids;
  retrieves = λ id w c h. found (id == "c1") id w.parent c refl h;
  sets_parent = λ c w h. put (c.id == "c1") c.id c.parent_group w refl h;
  set_parent_fails =
      λ c w e id h. ap (parent_at (id == "c1")) (kept (c.id == "c1") c.parent_group w e h);
  removes_parent = λ c w h. put (c.id == "c1") c.id "" w refl h;
  remove_parent_fails = λ c w e id h. ap (parent_at (id == "c1")) (kept (c.id == "c1") "" w e h);
  checks = λ c w e h n. not_there (among w.connections c) e h;
  adds_connections = λ cs w c h. among-append cs w.connections c;
  add_connections_fails = λ cs w c e h. failed_add e _ _ h;
  authorizes = λ c w h. ap check h;
}

abbrev pub entity : String → Entity
entity id = record { id = id; domain_id = "d1"; parent_group_id = ""; status = 0 }

abbrev pub one_channel : ChannelWorld World
one_channel = record {
  roles = channel_roles;
  repo = channel_table;
  clients = record {
    retrieve_entity = λ id w. ok (entity id);
    add_connections = λ cs w. (ok tt, w);
    remove_connections = λ cs w. (ok tt, w);
    remove_channel_connections = λ id w. (ok tt, w);
  };
  retrieve_group = λ id w. ok (entity id);
  new_id = λ w. (ok "c2", w);
  remove_cached = λ route domain w. (ok tt, w);
  id_keeps = λ w id. refl;
  remove_keeps = λ ids w r. refl;
  set_parent_keeps = λ c w r. parent_kept (c.id == "c1") c.parent_group w r;
  remove_parent_keeps = λ c w r. parent_kept (c.id == "c1") "" w r;
  add_keeps_parents = λ prs w id. refl;
  delete_keeps_parents = λ prs w id. refl;
  clients_keep = λ cs w c. refl;
}

abbrev pub private_world : PrivateWorld World
private_world = record {
  channels = one_channel;
  check_policy = λ pr w. ok tt;
  domain_status = λ id w. ok D.enabled;
  cached_id = λ route domain w. err missing;
  cache_id = λ route domain id w. (ok tt, w);
  retrieve_by_route = λ route domain w. here true w.parent;
}

abbrev pub fresh : World
fresh = record { relationships = λ r. false; parent = ""; connections = []; exists = true }

-- ===== src/Channels/Data.antt =====
-- The data of channels/channels.go and channels/status.go, and what the service is built over.
use text.Mathlib.Text.{◌==◌}
use supermq.Common.{
  ℕ, String, ◌≡◌, Bool, true, false, ◌&&◌, ◌||◌, List, [], ◌∷◌, All, ◌==◌ as equal,
}
use supermq.Errors.{Err, Result, ok, err}
use supermq.Service.{Action}
use supermq.Policies.{Policy}
use supermq.Roles.Data.{RoleWorld, KeepsPolicies}

pub data Status : Type 0 where
  enabled : Status
  disabled : Status
  deleted : Status
  all : Status

-- `uint32(status)`
abbrev pub status_number : Status → ℕ
status_number enabled = 0
status_number disabled = 1
status_number deleted = 2
status_number all = 3

-- The fields of a channel that are stored; metadata, which the service only passes on, is its JSON
-- text, times are numbers, and 0 is the zero time.
pub record Channel : Type 0 where
  pub id : String
  pub name : String
  pub tags : List String
  pub parent_group : String
  pub domain : String
  pub route : String
  pub metadata : String
  pub created_by : String
  pub created_at : ℕ
  pub updated_at : ℕ
  pub updated_by : String
  pub status : Status

-- `Channel{}`
abbrev pub no_channel : Channel
no_channel = record {
  id = "";
  name = "";
  tags = [];
  parent_group = "";
  domain = "";
  route = "";
  metadata = "";
  created_by = "";
  created_at = 0;
  updated_at = 0;
  updated_by = "";
  status = enabled;
}

-- A connection's type is an 8-bit number.
pub record Connection : Type 0 where
  pub client_id : String
  pub channel_id : String
  pub domain_id : String
  pub type : ℕ

unfoldable pub same_connection : Connection → Connection → Bool
same_connection a b =
    a.client_id == b.client_id
    && (a.channel_id == b.channel_id && (a.domain_id == b.domain_id && equal a.type b.type))

unfoldable pub among : List Connection → Connection → Bool
unfolding same_connection
among [] c = false
among (x ∷ xs) c = same_connection x c || among xs c

-- EntityBasic, the answer of RetrieveEntity of another service.
pub record Entity : Type 0 where
  pub id : String
  pub domain_id : String
  pub parent_group_id : String
  pub status : ℕ

-- The calls of channels.Repository that the services make, less those of roles.Repository. `known`
-- tells the IDs that have a channel, `parent` the channel's parent group, and `connected` the table
-- of connections. Each write is one statement or transaction, so that one that fails changes nothing.
pub record Repository (W : Type 0) : Type 0 where
  pub save : List Channel → Action W (List Channel)
  pub update : Channel → Action W Channel
  pub update_tags : Channel → Action W Channel
  pub change_status : Channel → Action W Channel
  pub retrieve_by_id : String → W → Result Channel
  pub retrieve_by_id_with_roles : String → String → W → Result Channel
  pub remove : List String → Action W (Unit {0})
  pub set_parent_group : Channel → Action W (Unit {0})
  pub remove_parent_group : Channel → Action W (Unit {0})
  pub retrieve_parent_group_channels : String → W → Result (List Channel)
  pub unset_parent_group_from_channels : String → Action W (Unit {0})
  pub add_connections : List Connection → Action W (Unit {0})
  pub remove_connections : List Connection → Action W (Unit {0})
  pub check_connection : Connection → W → Result (Unit {0})
  pub does_channel_have_connections : String → W → Result Bool
  pub client_authorize : Connection → W → Result (Unit {0})
  pub is_not_found : Err → Bool
  pub known : W → String → Bool
  pub parent : W → String → String
  pub connected : W → Connection → Bool
  pub save_fails :
      (cs : List Channel) (w : W) (e : Err) (id : String)
      → (save cs w).0 ≡ err e
      → known (save cs w).1 id ≡ known w id
  pub remove_forgets :
      (ids : List String) (w : W)
      → (remove ids w).0 ≡ ok tt
      → All (λ id. known (remove ids w).1 id ≡ false) ids
  pub retrieves :
      (id : String) (w : W) (c : Channel)
      → retrieve_by_id id w ≡ ok c
      → (c.id ≡ id) × (parent w id ≡ c.parent_group)
  pub sets_parent :
      (c : Channel) (w : W)
      → (set_parent_group c w).0 ≡ ok tt
      → parent (set_parent_group c w).1 c.id ≡ c.parent_group
  pub set_parent_fails :
      (c : Channel) (w : W) (e : Err) (id : String)
      → (set_parent_group c w).0 ≡ err e
      → parent (set_parent_group c w).1 id ≡ parent w id
  pub removes_parent :
      (c : Channel) (w : W)
      → (remove_parent_group c w).0 ≡ ok tt
      → parent (remove_parent_group c w).1 c.id ≡ ""
  pub remove_parent_fails :
      (c : Channel) (w : W) (e : Err) (id : String)
      → (remove_parent_group c w).0 ≡ err e
      → parent (remove_parent_group c w).1 id ≡ parent w id
  pub checks :
      (c : Connection) (w : W) (e : Err)
      → check_connection c w ≡ err e
      → is_not_found e ≡ true
      → connected w c ≡ false
  pub adds_connections :
      (cs : List Connection) (w : W) (c : Connection)
      → (add_connections cs w).0 ≡ ok tt
      → connected (add_connections cs w).1 c ≡ (among cs c || connected w c)
  pub add_connections_fails :
      (cs : List Connection) (w : W) (c : Connection) (e : Err)
      → (add_connections cs w).0 ≡ err e
      → connected (add_connections cs w).1 c ≡ connected w c
  pub authorizes : (c : Connection) (w : W) → connected w c ≡ true → client_authorize c w ≡ ok tt

-- The calls of the clients service over gRPC.
pub record Clients (W : Type 0) : Type 0 where
  pub retrieve_entity : String → W → Result Entity
  pub add_connections : List Connection → Action W (Unit {0})
  pub remove_connections : List Connection → Action W (Unit {0})
  pub remove_channel_connections : String → Action W (Unit {0})

-- The policies, the IDs and the other service are other systems than the tables of the channels.
pub record ChannelWorld (W : Type 0) : Type 0 where
  pub roles : RoleWorld W
  pub repo : Repository W
  pub clients : Clients W
  pub retrieve_group : String → W → Result Entity
  pub new_id : Action W String
  pub remove_cached : String → String → Action W (Unit {0})
  pub id_keeps : (w : W) (id : String) → repo.known (new_id w).1 id ≡ repo.known w id
  pub remove_keeps : (ids : List String) → KeepsPolicies roles.policy (repo.remove ids)
  pub set_parent_keeps : (c : Channel) → KeepsPolicies roles.policy (repo.set_parent_group c)
  pub remove_parent_keeps : (c : Channel) → KeepsPolicies roles.policy (repo.remove_parent_group c)
  pub add_keeps_parents :
      (prs : List Policy) (w : W) (id : String)
      → repo.parent (roles.policy.add prs w).1 id ≡ repo.parent w id
  pub delete_keeps_parents :
      (prs : List Policy) (w : W) (id : String)
      → repo.parent (roles.policy.delete prs w).1 id ≡ repo.parent w id
  pub clients_keep :
      (cs : List Connection) (w : W) (c : Connection)
      → repo.connected (clients.add_connections cs w).1 c ≡ repo.connected w c

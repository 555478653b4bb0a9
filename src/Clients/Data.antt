-- ===== src/Clients/Data.antt =====
-- The data of clients/clients.go and clients/status.go, and what the service is built over.
use supermq.Common.{ℕ, String, ◌≡◌, Bool, List, []}
use supermq.Errors.{Result}
use supermq.Service.{Action}
use supermq.Service.Laws.{Keeps}
use supermq.Roles.Data.{RoleWorld, KeepsPolicies}
use supermq.Channels.Data.{Entity}
use supermq.Clients.Cache.{Redis}

pub data Status : Type 0 where
  enabled : Status
  disabled : Status
  deleted : Status
  all : Status

-- `uint32(status)`
abbrev pub status_number : Status → ℕ
status_number enabled = 0
status_number disabled = 1
status_number deleted = 2
status_number all = 3

pub record Credentials : Type 0 where
  pub identity : String
  pub secret : String

-- The fields of a client that are stored; metadata, which the service only passes on, is its JSON
-- text, times are numbers, and 0 is the zero time.
pub record Client : Type 0 where
  pub id : String
  pub name : String
  pub tags : List String
  pub domain : String
  pub parent_group : String
  pub credentials : Credentials
  pub metadata : String
  pub private_metadata : String
  pub created_at : ℕ
  pub updated_at : ℕ
  pub updated_by : String
  pub status : Status
  pub identity : String

-- `Client{}`
abbrev pub no_client : Client
no_client = record {
  id = "";
  name = "";
  tags = [];
  domain = "";
  parent_group = "";
  credentials = record { identity = ""; secret = "" };
  metadata = "";
  private_metadata = "";
  created_at = 0;
  updated_at = 0;
  updated_by = "";
  status = enabled;
  identity = "";
}

-- The calls of clients.Repository that the services make, less those of roles.Repository.
pub record Repository (W : Type 0) : Type 0 where
  pub save : List Client → Action W (List Client)
  pub update : Client → Action W Client
  pub update_tags : Client → Action W Client
  pub update_secret : Client → Action W Client
  pub change_status : Client → Action W Client
  pub retrieve_by_id : String → W → Result Client
  pub retrieve_by_id_with_roles : String → String → W → Result Client
  pub remove : List String → Action W (Unit {0})
  pub set_parent_group : Client → Action W (Unit {0})
  pub remove_parent_group : Client → Action W (Unit {0})
  pub retrieve_parent_group_clients : String → W → Result (List Client)
  pub unset_parent_group_from_client : String → Action W (Unit {0})
  pub does_client_have_connections : String → W → Result Bool
  -- An UPDATE returns the row that it has changed.
  pub returns_id : (c d : Client) (w : W) → (change_status c w).0 ≡ Result.ok d → d.id ≡ c.id

-- The tables of the clients are another system than the cache and the policies.
pub record ClientWorld (W : Type 0) : Type 0 where
  pub roles : RoleWorld W
  pub repo : Repository W
  pub redis : Redis W
  pub retrieve_group : String → W → Result Entity
  pub new_id : Action W String
  pub remove_client_connections : String → Action W (Unit {0})
  pub change_keeps :
      (c : Client) (k : String) → Keeps (λ w. redis.stored w k) (repo.change_status c)
  pub set_parent_keeps : (c : Client) → KeepsPolicies roles.policy (repo.set_parent_group c)

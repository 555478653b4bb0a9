-- ===== src/Groups/Data.antt =====
-- The data of groups/groups.go and groups/status.go, and what the service is built over.
use supermq.Common.{ℕ, String, List, []}
use supermq.Errors.{Result}
use supermq.Service.{Action}
use supermq.Roles.Data.{RoleWorld, KeepsPolicies}

pub data Status : Type 0 where
  enabled : Status
  disabled : Status
  deleted : Status
  all : Status

-- `uint8(status)`
abbrev pub status_number : Status → ℕ
status_number enabled = 0
status_number disabled = 1
status_number deleted = 2
status_number all = 3

-- The fields of a group that are stored; metadata, which the service only passes on, is its JSON
-- text, times are numbers, and 0 is the zero time.
pub record Group : Type 0 where
  pub id : String
  pub domain : String
  pub parent : String
  pub name : String
  pub description : String
  pub tags : List String
  pub metadata : String
  pub level : ℕ
  pub path : String
  pub created_at : ℕ
  pub updated_at : ℕ
  pub updated_by : String
  pub status : Status

-- `Group{}`
abbrev pub no_group : Group
no_group = record {
  id = "";
  domain = "";
  parent = "";
  name = "";
  description = "";
  tags = [];
  metadata = "";
  level = 0;
  path = "";
  created_at = 0;
  updated_at = 0;
  updated_by = "";
  status = enabled;
}

-- The fields of PageMeta that the service sets for RetrieveByIDs: the limit, and the status, which
-- is 0 unless it is set and is that of enabled groups.
pub record PageMeta : Type 0 where
  pub limit : ℕ
  pub status : Status

-- The calls of groups.Repository that the service makes, less those of roles.Repository.
pub record Repository (W : Type 0) : Type 0 where
  pub save : Group → Action W Group
  pub update : Group → Action W Group
  pub update_tags : Group → Action W Group
  pub change_status : Group → Action W Group
  pub retrieve_by_id : String → W → Result Group
  pub retrieve_by_id_with_roles : String → String → W → Result Group
  pub retrieve_by_ids : PageMeta → List String → W → Result (List Group)
  pub assign_parent_group : String → List String → Action W (Unit {0})
  pub unassign_parent_group : String → List String → Action W (Unit {0})
  pub unassign_all_children_groups : String → Action W (Unit {0})
  pub remove : String → Action W (Unit {0})

-- The policies are another system than the table of the groups.
pub record GroupWorld (W : Type 0) : Type 0 where
  pub roles : RoleWorld W
  pub repo : Repository W
  pub new_id : Action W String
  pub unset_channels : String → Action W (Unit {0})
  pub unset_clients : String → Action W (Unit {0})
  pub assign_keeps :
      (parent : String) (ids : List String)
      → KeepsPolicies roles.policy (repo.assign_parent_group parent ids)
  pub unassign_keeps :
      (parent : String) (ids : List String)
      → KeepsPolicies roles.policy (repo.unassign_parent_group parent ids)

-- ===== src/Roles/Data.antt =====
-- The data of pkg/roles/roles.go, and what ProvisionManageService is built over.
use supermq.Common.{ℕ, String, ◌≡◌, List, Bool}
use supermq.Errors.{Result}
use supermq.Service.{Action}
use supermq.Policies.{Relationship, PolicyStore}

-- Times are numbers; 0 is the zero time.
pub record Role : Type 0 where
  pub id : String
  pub name : String
  pub entity_id : String
  pub created_by : String
  pub created_at : ℕ
  pub updated_by : String
  pub updated_at : ℕ

pub record RoleProvision : Type 0 where
  pub role : Role
  pub optional_actions : List String
  pub optional_members : List String

pub record EntityActionRole : Type 0 where
  pub entity_id : String
  pub action : String
  pub role_id : String

pub record EntityMemberRole : Type 0 where
  pub entity_id : String
  pub member_id : String
  pub role_id : String

-- The part of authn.Session that the services read.
pub record Session : Type 0 where
  pub user_id : String
  pub domain_id : String
  pub domain_user_id : String
  pub super_admin : Bool

pub record RolePage : Type 0 where
  pub total : ℕ
  pub offset : ℕ
  pub limit : ℕ
  pub roles : List Role

pub record MembersPage : Type 0 where
  pub total : ℕ
  pub offset : ℕ
  pub limit : ℕ
  pub members : List String

-- roles.Repository; the reads change nothing.
pub record Repository (W : Type 0) : Type 0 where
  pub add_roles : List RoleProvision → Action W (List RoleProvision)
  pub remove_roles : List String → Action W (Unit {0})
  pub update_role : Role → Action W Role
  pub retrieve_entity_role : String → String → W → Result Role
  pub retrieve_all_roles : String → ℕ → ℕ → W → Result RolePage
  pub add_actions : Role → List String → Action W (List String)
  pub list_actions : String → W → Result (List String)
  pub check_actions_exists : String → List String → W → Result Bool
  pub remove_actions : Role → List String → Action W (Unit {0})
  pub remove_all_actions : Role → Action W (Unit {0})
  pub add_members : Role → List String → Action W (List String)
  pub list_members : String → ℕ → ℕ → W → Result MembersPage
  pub check_members_exists : String → List String → W → Result Bool
  pub remove_members : Role → List String → Action W (Unit {0})
  pub remove_all_members : Role → Action W (Unit {0})
  pub retrieve_actions_members :
      List String → W → Result (List EntityActionRole × List EntityMemberRole)
  pub remove_entity_members : String → List String → Action W (Unit {0})
  pub remove_member_from_all_roles : String → Action W (Unit {0})

-- The call leaves every relationship of the policy store as it was.
abbrev pub KeepsPolicies : {W A : Type 0} → PolicyStore W → Action W A → Type 0
KeepsPolicies {W} store m = (w : W) (r : Relationship) → store.holds (m w).1 r ≡ store.holds w r

-- The repository and the ID provider are other systems than the policy store: their writes leave
-- it alone.
pub record RoleWorld (W : Type 0) : Type 0 where
  pub policy : PolicyStore W
  pub repo : Repository W
  pub new_sid : Action W String
  pub now : W → ℕ
  pub sid_keeps : KeepsPolicies policy new_sid
  pub add_roles_keeps : (rs : List RoleProvision) → KeepsPolicies policy (repo.add_roles rs)
  pub remove_roles_keeps : (ids : List String) → KeepsPolicies policy (repo.remove_roles ids)
  pub add_actions_keeps :
      (ro : Role) (acts : List String) → KeepsPolicies policy (repo.add_actions ro acts)
  pub remove_actions_keeps :
      (ro : Role) (acts : List String) → KeepsPolicies policy (repo.remove_actions ro acts)
  pub remove_all_actions_keeps : (ro : Role) → KeepsPolicies policy (repo.remove_all_actions ro)
  pub add_members_keeps :
      (ro : Role) (ms : List String) → KeepsPolicies policy (repo.add_members ro ms)
  pub remove_members_keeps :
      (ro : Role) (ms : List String) → KeepsPolicies policy (repo.remove_members ro ms)
  pub remove_all_members_keeps : (ro : Role) → KeepsPolicies policy (repo.remove_all_members ro)

-- The fields of ProvisionManageService that are no interfaces.
pub record Provisioner : Type 0 where
  pub entity_type : String
  pub actions : List String
  pub built_in_roles : List (String × List String)

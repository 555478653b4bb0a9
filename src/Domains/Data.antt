-- ===== src/Domains/Data.antt =====
-- The data of domains/domains.go and domains/invitations.go, and what the service is built over.
use supermq.Common.{false, ℕ, String, ◌≡◌, ◌⊎◌, Bool, List, Option, none, some}
use supermq.Errors.{Err, Result, ok, err}
use supermq.Service.{Action}
use supermq.Service.Laws.{Keeps}
use supermq.Policies.{Policy}
use supermq.Roles.Data.{Role, RoleWorld, KeepsPolicies}

pub data Status : Type 0 where
  enabled : Status
  disabled : Status
  freezed : Status
  deleted : Status
  all : Status

-- Metadata, which the service only passes on, is its JSON text.
pub record Domain : Type 0 where
  pub id : String
  pub name : String
  pub metadata : String
  pub tags : List String
  pub route : String
  pub status : Status
  pub created_by : String
  pub created_at : ℕ
  pub updated_by : String
  pub updated_at : ℕ

pub record DomainReq : Type 0 where
  pub name : Option String
  pub metadata : Option String
  pub tags : Option (List String)
  pub status : Option Status
  pub updated_by : Option String
  pub updated_at : Option ℕ

-- Times are numbers; 0 is the zero time.
pub record Invitation : Type 0 where
  pub invited_by : String
  pub invitee_user_id : String
  pub domain_id : String
  pub domain_name : String
  pub role_id : String
  pub role_name : String
  pub created_at : ℕ
  pub updated_at : ℕ
  pub confirmed_at : ℕ
  pub rejected_at : ℕ
  pub resend : Bool

-- The calls of domains.Repository that the service makes, less those of roles.Repository. `stored`
-- is the table of invitations, by invitee and domain: an INSERT writes a new invitation with no
-- other times, an UPDATE only its time columns; a write that fails may have been done or not. `known` tells the IDs that have a domain, one statement
-- each, so that an INSERT that fails adds none and a DELETE that succeeds leaves none.
pub record Repository (W : Type 0) : Type 0 where
  pub save_domain : Domain → Action W Domain
  pub delete_domain : String → Action W (Unit {0})
  pub retrieve_domain : String → W → Result Domain
  pub retrieve_domain_with_roles : String → String → W → Result Domain
  pub update_domain : String → DomainReq → Action W Domain
  pub retrieve_role : String → W → Result Role
  pub save_invitation : Invitation → Action W (Unit {0})
  pub retrieve_invitation : String → String → W → Result Invitation
  pub update_confirmation : Invitation → Action W (Unit {0})
  pub update_rejection : Invitation → Action W (Unit {0})
  pub delete_invitations : String → List String → Action W (Unit {0})
  pub is_not_found : Err → Bool
  pub stored : W → String → String → Option Invitation
  pub known : W → String → Bool
  pub save_fails :
      (d : Domain) (w : W) (e : Err) (id : String)
      → (save_domain d w).0 ≡ err e
      → known (save_domain d w).1 id ≡ known w id
  pub delete_forgets :
      (id : String) (w : W)
      → (delete_domain id w).0 ≡ ok tt
      → known (delete_domain id w).1 id ≡ false
  pub retrieves :
      (user domain : String) (w : W) (inv : Invitation)
      → retrieve_invitation user domain w ≡ ok inv
      → stored w user domain ≡ some inv
  pub keyed :
      (user domain : String) (w : W) (inv : Invitation)
      → stored w user domain ≡ some inv
      → (inv.invitee_user_id ≡ user) × (inv.domain_id ≡ domain)
  pub saves :
      (inv : Invitation) (w : W) (user domain : String)
      → (stored (save_invitation inv w).1 user domain ≡ stored w user domain)
        ⊎ (stored (save_invitation inv w).1 user domain
            ≡ some (record inv {
              domain_name = "";
              role_name = "";
              updated_at = 0;
              confirmed_at = 0;
              rejected_at = 0;
            }))
  pub confirms :
      (inv : Invitation) (w : W) (user domain : String)
      → (stored (update_confirmation inv w).1 user domain ≡ stored w user domain)
        ⊎ ((old : Invitation) × (stored w user domain ≡ some old)
            × (user ≡ inv.invitee_user_id)
            × (domain ≡ inv.domain_id)
            × (stored (update_confirmation inv w).1 user domain
                ≡ some
                    (record old { confirmed_at = inv.confirmed_at; updated_at = inv.updated_at })))
  pub rejects :
      (inv : Invitation) (w : W) (user domain : String)
      → (stored (update_rejection inv w).1 user domain ≡ stored w user domain)
        ⊎ ((old : Invitation) × (stored w user domain ≡ some old)
            × (user ≡ inv.invitee_user_id)
            × (domain ≡ inv.domain_id)
            × (stored (update_rejection inv w).1 user domain
                ≡ some (record old { rejected_at = inv.rejected_at; updated_at = inv.updated_at })))
  pub deletes :
      (domain_id : String) (users : List String) (w : W) (user domain : String)
      → (stored (delete_invitations domain_id users w).1 user domain ≡ stored w user domain)
        ⊎ (stored (delete_invitations domain_id users w).1 user domain ≡ none)

-- The call leaves the invitations as they are.
abbrev pub KeepsInvitations : {W A : Type 0} → Repository W → Action W A → Type 0
KeepsInvitations {W} repo m = (user domain : String) → Keeps (λ w. repo.stored w user domain) m

-- The policies and the tables of the roles are other data than the invitations and the cache.
pub record DomainWorld (W : Type 0) : Type 0 where
  pub roles : RoleWorld W
  pub repo : Repository W
  pub new_id : Action W String
  pub remove_status : String → Action W (Unit {0})
  pub id_keeps : (w : W) (id : String) → repo.known (new_id w).1 id ≡ repo.known w id
  pub policies_keep : (prs : List Policy) → KeepsInvitations repo (roles.policy.add prs)
  pub undo_keeps : (prs : List Policy) → KeepsInvitations repo (roles.policy.delete prs)
  pub members_keep :
      (ro : Role) (ms : List String) → KeepsInvitations repo (roles.repo.add_members ro ms)
  pub confirmation_keeps :
      (inv : Invitation) → KeepsPolicies roles.policy (repo.update_confirmation inv)

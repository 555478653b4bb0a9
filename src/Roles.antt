-- ===== src/Roles.antt =====
-- ProvisionManageService of pkg/roles/provisionmanage.go: the roles of an entity, kept in its
-- repository and, as relationships, in the policy store. The repository (pkg/roles/repo), the
-- policy store, the ID provider and the clock are the fields of `RoleWorld`.
pub mod Data
pub mod Policy
pub mod Provision
pub mod Manage
pub mod Adding
pub mod Provisioning
pub mod Plans
pub mod Removing
pub mod Cleanup
pub mod Matching
pub mod Memberships

-- ===== src/Groups.antt =====
-- The groups service, groups/service.go.
pub mod Data
pub mod Manage
pub mod Hierarchy
pub mod Adopting

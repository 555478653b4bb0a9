-- ===== src/Clients.antt =====
-- The clients service, clients/service.go, clients/private/service.go and clients/cache/clients.go.
pub mod Cache
pub mod Forgetting
pub mod Stale
pub mod Data
pub mod Manage
pub mod Parents
pub mod Disabling
pub mod Authenticate
pub mod Authenticating
pub mod Packed

-- ===== src/Tests.antt =====
-- Runs of the models at concrete inputs, and the theorems applied to them.
pub mod Errors
pub mod Scopes
pub mod Topics
pub mod Parsers
pub mod RoleWorld
pub mod Roles
pub mod RedisWorld
pub mod DomainWorld
pub mod Domains
pub mod DomainLookups
pub mod ChannelWorld
pub mod Channels
pub mod Clients
pub mod Authenticating
pub mod Groups
pub mod SpicedbWorld
pub mod Spicedb
pub mod Authn

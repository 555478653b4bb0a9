-- ===== src/Channels.antt =====
-- The channels service, channels/service.go and channels/private/service.go.
pub mod Data
pub mod Manage
pub mod Connect
pub mod Parents
pub mod Connecting
pub mod Private
pub mod Connected
pub mod Authorized
pub mod InStep
pub mod Setting
pub mod Unsetting
pub mod Removed

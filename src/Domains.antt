-- ===== src/Domains.antt =====
-- The domains service (domains/service.go): domains, and the invitations of users to them. The
-- Postgres repository, the status cache, the policy store, the ID providers and the clock are the
-- fields of `DomainWorld`.
pub mod Data
pub mod Invite
pub mod Pending
pub mod Invariant
pub mod Answers
pub mod Runs
pub mod Accepting
pub mod Manage
pub mod Creating
pub mod Retaining
pub mod Cache
pub mod Private
pub mod Seen

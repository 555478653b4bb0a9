-- ===== src/Lib.antt =====
-- Verification library of SuperMQ, an event-driven IoT messaging platform written in Go.
--
-- Common holds the names, tests and list lemmas that all modules share. Every model below is a
-- translation of Go functions: a Go string is a list of bytes where the code walks it, and a native
-- text where it is only compared; an `error` is a chain of messages (Errors); a function that fails
-- returns a Result.
--
-- Errors (pkg/errors/errors.go, pkg/errors/error_types.go): New, Wrap, Embed, Contains, Error.
--   `wrap` recurs on the wrapped error; the call in which `Embed` turns the sides round is
--   `wrap_plain`. JSON, Unwrap and errors of other packages that wrap by %w are not modelled.
-- Messaging (pkg/messaging/topics.go, pkg/messaging/health.go):
--   Bytes: the functions of `strings` that the code calls. TrimSpace strips the UTF-8 spaces as long
--     as one fits; the length of the text is fuel enough, since each takes a byte.
--   Topic: ParseTopic and the encoders. The index of the source is what is left of the topic.
--     Topic.Grammar describes the accepted topics with no index; Topic.Laws, Topic.Errors and
--     Topic.RoundTrip relate the two.
--   Subtopic: ParsePublishSubtopic, ParseSubscribeSubtopic, ParsePublishTopic, ParseSubscribeTopic.
--     url.QueryUnescape is written out, less the text of its error.
--   Parser: Resolve, ResolveTopic and the caching parser. The UUID library, the cache library and the
--     domains and channels services are parameters; of the cache only this is used, that a hit
--     returns what was stored last under the key.
-- Service (pkg/errors/service): a service call is a function of the world (databases, policy store,
--   clock, ID generator) that returns a Result and the world after it, also after an error;
--   `undoing` is the deferred rollback. Service.Laws reasons about how sequences of calls end.
-- Policies (pkg/policies/service.go, pkg/policies/spicedb/service.go): a policy, the relationship
--   sent for it, and `PolicyStore`, the interface policies.Service by the relationships that it
--   holds, over which the services stand. Policies.Atomic is adding with rollback, Policies.Deleting
--   deleting, Policies.Implements what an implementation owes. Policies.Spicedb is the one over
--   SpiceDB, whose client is the record `SpiceDb` with the documented behaviour of its writes:
--   Preconditions, Validation, Writes: what is checked and sent. Refines, Between, Collected,
--     Guards: what that makes of the relationships.
--   Lookups, Listing: objects, subjects, permissions and their numbers. The loops over pages recur on
--     fuel; one round per page is enough. Paging: what the loops give.
-- Authn (pkg/authn/authn.go): the tokens that AuthPack makes and AuthUnpack reads, on bytes.
--   base64.StdEncoding is written out, less the position in its error. AuthPrefix has its three
--   constants only.
-- Connections (pkg/connections): types of connections as numbers of 8 bits.
-- Roles (pkg/roles/provisionmanage.go, pkg/roles/roles.go): ProvisionManageService.
--   Manage: the operations of RoleManager. Provision: AddNewEntitiesRoles, RemoveEntitiesRoles; a
--     map of built-in roles is a list in any order, since Go's range order is any.
--   Adding, Provisioning, Plans: what is added. Removing, Cleanup, Memberships: what is deleted.
--     Of the repository only this is used, that its writes leave the policy store alone.
-- Domains (domains/service.go, domains/domains.go, domains/invitations.go): the domains service over
--   `DomainWorld`. Invite: the invitations. Manage: the domains, and the operations of Roles that the
--   service overrides. The laws of the repository are what domains/postgres/invitations.go writes: an
--   INSERT makes an invitation with no times but its creation, an UPDATE sets its time columns only.
--   Invariant, Answers, Runs: sequences of calls. Accepting, Creating, Retaining: single calls; the
--     table of the members of roles (pkg/roles/repo/postgres/roles.go) is `MemberTable` there.
--   Cache (domains/cache/domains.go), Private (domains/private/service.go), Seen: statuses and IDs that
--     are looked up through Redis; Go's default text of an unknown status is left out.
--   Lists of domains and invitations are not modelled.
-- Channels (channels/service.go, channels/private/service.go, channels/channels.go): the channels
--   service over `ChannelWorld`, with the clients and groups services as parameters. Of the
--   repository this is used: a write is one statement or transaction, so that one that fails changes
--   nothing, and the reads answer from the tables.
--   Manage: the channels. Connect: connections. Parents: the parent group, also from the private
--     service. Private: Authorize and the cache of routes.
--   Connecting, Connected, Authorized: connections and what they allow. InStep, Setting, Unsetting:
--     the parent group in the repository and among the policies. Removed: RemoveChannel.
--   Lists of channels are not modelled.
-- Redis: the calls of the Redis client, by the entries that it holds; none expires in the model.
-- Clients (clients/service.go, clients/private/service.go, clients/cache/clients.go): the clients
--   service. Cache: the cache of keys over Redis.
--   Manage: the clients. Parents: the parent group. Forgetting, Stale, Disabling: what is left in the
--   cache. Authenticate: the authentication, over RetrieveBySecret as a parameter. Packed,
--   Authenticating: what it answers. Lists of clients are not modelled.
-- Groups (groups/service.go, groups/groups.go): the groups service. Manage: the groups. Hierarchy:
--   parents and children. Adopting: AddChildrenGroups. Lists of groups are not modelled.
-- Auth (auth/pat.go, auth/service.go): scopes of personal access tokens, and in Auth.DomainUsers
--   the IDs of users in domains over bytes. Tokens, keys and the rest of the service are not
--   modelled.
-- Tests: concrete worlds and runs.
pub mod Auth
pub mod Authn
pub mod Channels
pub mod Clients
pub mod Common
pub mod Connections
pub mod Domains
pub mod Errors
pub mod Groups
pub mod Messaging
pub mod Policies
pub mod Redis
pub mod Roles
pub mod Service
pub mod Tests

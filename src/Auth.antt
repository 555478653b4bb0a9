-- ===== src/Auth.antt =====
-- Scopes of personal access tokens (auth/pat.go).
pub mod Scopes
pub mod DomainUsers
use text.Mathlib.Text.{◌==◌}
use supermq.Common.{String, Bool, true, false, not, ◌&&◌, ◌||◌, Option, none, some, if◌then◌else◌}
use supermq.Errors.{Err, new, nil, request, wrap}

pub data EntityType : Type 0 where
  groups : EntityType
  channels : EntityType
  clients : EntityType
  dashboard : EntityType
  messages : EntityType
  domains : EntityType
  users : EntityType

-- String
unfoldable pub entity_name : EntityType → String
entity_name EntityType.groups = "groups"
entity_name EntityType.channels = "channels"
entity_name EntityType.clients = "clients"
entity_name EntityType.dashboard = "dashboards"
entity_name EntityType.messages = "messages"
entity_name EntityType.domains = "domains"
entity_name EntityType.users = "users"

-- ParseEntityType, without the text of its error.
unfoldable pub parse_entity_type : String → Option EntityType
parse_entity_type s =
    if s == "groups"
    then some groups
    else if s == "channels"
    then some channels
    else if s == "clients"
    then some clients
    else if s == "dashboards"
    then some dashboard
    else if s == "messages"
    then some messages
    else if s == "domains"
    then some domains
    else if s == "users"
    then some users
    else none

-- `==` on entity types, which are numbers.
abbrev pub same_type : EntityType → EntityType → Bool
same_type EntityType.groups EntityType.groups = true
same_type EntityType.channels EntityType.channels = true
same_type EntityType.clients EntityType.clients = true
same_type EntityType.dashboard EntityType.dashboard = true
same_type EntityType.messages EntityType.messages = true
same_type EntityType.domains EntityType.domains = true
same_type EntityType.users EntityType.users = true
same_type _ _ = false

-- IsValidOperationForEntity
unfoldable pub is_valid_operation_for_entity : EntityType → String → Bool
is_valid_operation_for_entity EntityType.clients op = true
is_valid_operation_for_entity EntityType.channels op = true
is_valid_operation_for_entity EntityType.groups op = true
is_valid_operation_for_entity EntityType.domains op = true
is_valid_operation_for_entity EntityType.dashboard op =
    op == "dashboard_share" || op == "dashboard_unshare"
is_valid_operation_for_entity EntityType.messages op =
    op == "message_publish" || op == "message_subscribe"
is_valid_operation_for_entity EntityType.users op = false

pub record Scope : Type 0 where
  pub id : String
  pub pat_id : String
  pub domain_id : String
  pub entity_type : EntityType
  pub entity_id : String
  pub operation : String

-- One of two names is written out as another; every other name stays.
abbrev pub spell : String → String → String → String → String → String
spell a a' b b' op = if op == a then a' else if op == b then b' else op

-- The operation that UnmarshalJSON sets.
unfoldable pub full_operation : EntityType → String → String
full_operation EntityType.clients op = spell "create" "create_clients" "list" "list_clients" op
full_operation EntityType.channels op = spell "create" "create_channels" "list" "list_channels" op
full_operation EntityType.groups op = spell "create" "create_groups" "list" "list_groups" op
full_operation EntityType.dashboard op =
    spell "share" "dashboard_share" "unshare" "dashboard_unshare" op
full_operation EntityType.messages op =
    spell "publish" "message_publish" "subscribe" "message_subscribe" op
full_operation EntityType.domains op = op
full_operation EntityType.users op = op

-- UnmarshalJSON once the fields are read.
abbrev pub read_scope : Scope → Scope
read_scope s = record s { operation = full_operation s.entity_type s.operation }

-- Authorized, of a scope that is not nil.
unfoldable pub authorized : Scope → EntityType → String → String → String → Bool
authorized s entity_type domain_id operation entity_id =
    if not (same_type s.entity_type entity_type)
    then false
    else if not (s.domain_id == "") && not (s.domain_id == domain_id)
    then false
    else if not (s.operation == operation)
    then false
    else if s.entity_id == "*"
    then true
    else if s.entity_id == entity_id
    then true
    else false

abbrev pub missing_entity_id : Err
missing_entity_id = new (some request) "missing entity id"

abbrev pub missing_domain_id : Err
missing_domain_id = new (some request) "missing domainID"

abbrev pub invalid_query_params : Err
invalid_query_params = new (some request) "invalid query parameters"

abbrev pub invalid_entity_op : Err
invalid_entity_op = new (some request) "operation not valid for entity type"

-- Validate, of a scope that is not nil; the error is nil if the scope is valid.
unfoldable pub validate : Scope → Err
unfolding is_valid_operation_for_entity
validate s =
    if s.entity_id == ""
    then missing_entity_id
    else if s.domain_id == ""
    then missing_domain_id
    else if not (is_valid_operation_for_entity s.entity_type s.operation)
    then wrap invalid_query_params invalid_entity_op
    else nil

-- ===== src/Auth/Scopes.antt =====
-- What the functions of auth/pat.go on scopes accept.
use text.Mathlib.Text.{◌==◌}
use text.Mathlib.TextEquality.{eq_iff}
use supermq.Common.{subst, sym, String, ◌≡◌, refl, ap, ◌⊎◌, ◌↔◌, true, false, some, arith}
use supermq.Auth.{
  EntityType, groups, channels, clients, dashboard, messages, domains, users, entity_name,
  parse_entity_type, same_type, full_operation, Scope, spell, read_scope, authorized,
}

parse_entity_type-entity_name : (t : EntityType) → parse_entity_type (entity_name t) ≡ some t
unfolding parse_entity_type entity_name
parse_entity_type-entity_name groups = refl
parse_entity_type-entity_name channels = refl
parse_entity_type-entity_name clients = refl
parse_entity_type-entity_name dashboard = refl
parse_entity_type-entity_name messages = refl
parse_entity_type-entity_name domains = refl
parse_entity_type-entity_name users = refl

parsed_name : (s : String) (t : EntityType) → parse_entity_type s ≡ some t → s ≡ entity_name t
unfolding parse_entity_type entity_name
parsed_name s t h = ground (
  arith,
  eq_iff s "groups",
  eq_iff s "channels",
  eq_iff s "clients",
  eq_iff s "dashboards",
  eq_iff s "messages",
  eq_iff s "domains",
  eq_iff s "users",
)

-- ParseEntityType accepts exactly the names that String writes, and reads each as the type that has
-- that name.
pub parse_entity_type_iff :
    (s : String) (t : EntityType) → (parse_entity_type s ≡ some t) ↔ (s ≡ entity_name t)
parse_entity_type_iff s t = (
  parsed_name s t,
  λ e. subst (λ v. parse_entity_type v ≡ some t) (sym e) (parse_entity_type-entity_name t),
)

same_type-eq : (a b : EntityType) → (same_type a b ≡ true) ↔ (a ≡ b)
same_type-eq a b = ground arith

-- What a scope grants: its entity type and operation, in its domain or, if it has none, in every
-- domain, on its entity or, if that is "*", on every entity.
abbrev pub Grants : Scope → EntityType → String → String → String → Type 0
Grants s entity_type domain_id operation entity_id =
    (s.entity_type ≡ entity_type)
    × (((s.domain_id ≡ "") ⊎ (s.domain_id ≡ domain_id))
        × ((s.operation ≡ operation) × ((s.entity_id ≡ "*") ⊎ (s.entity_id ≡ entity_id))))

-- Authorized accepts exactly what the scope grants.
pub authorized_iff :
    (s : Scope) (entity_type : EntityType) (domain_id operation entity_id : String)
    → (authorized s entity_type domain_id operation entity_id ≡ true)
      ↔ Grants s entity_type domain_id operation entity_id
unfolding authorized
authorized_iff s t d o i = ground (
  arith,
  same_type-eq s.entity_type t,
  eq_iff s.domain_id "",
  eq_iff s.domain_id d,
  eq_iff s.operation o,
  eq_iff s.entity_id "*",
  eq_iff s.entity_id i,
)

spell_twice :
    (a a' b b' op : String)
    → (a' == a) ≡ false
    → (a' == b) ≡ false
    → (b' == a) ≡ false
    → (b' == b) ≡ false
    → spell a a' b b' (spell a a' b b' op) ≡ spell a a' b b' op
spell_twice a a' b b' op h1 h2 h3 h4 = ground arith

-- Reading a scope that was read before, and written out since, changes nothing more.
pub read_scope_idempotent : (s : Scope) → read_scope (read_scope s) ≡ read_scope s
unfolding full_operation
read_scope_idempotent s = ap (λ op. record s { operation = op }) (twice s.entity_type)
  where
    twice :
        (t : EntityType)
        → full_operation t (full_operation t s.operation) ≡ full_operation t s.operation
    twice clients =
        spell_twice "create" "create_clients" "list" "list_clients" s.operation refl refl refl refl
    twice channels =
        spell_twice "create" "create_channels" "list" "list_channels" s.operation refl refl refl
          refl
    twice groups =
        spell_twice "create" "create_groups" "list" "list_groups" s.operation refl refl refl refl
    twice dashboard =
        spell_twice "share" "dashboard_share" "unshare" "dashboard_unshare" s.operation refl refl
          refl refl
    twice messages =
        spell_twice "publish" "message_publish" "subscribe" "message_subscribe" s.operation refl
          refl refl refl
    twice domains = refl
    twice users = refl

-- The operations that a scope may have on its entity type.
abbrev pub IsOperationOf : String → EntityType → Type 0
IsOperationOf op EntityType.dashboard = (op ≡ "dashboard_share") ⊎ (op ≡ "dashboard_unshare")
IsOperationOf op EntityType.messages = (op ≡ "message_publish") ⊎ (op ≡ "message_subscribe")
IsOperationOf op EntityType.users = ⊥
IsOperationOf op _ = Unit

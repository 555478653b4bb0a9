-- ===== src/Tests/Channels.antt =====
-- The theorems on channels/service.go, channels/private/service.go and pkg/connections applied to a
-- world with one channel.
use supermq.Common.{◌↔◌, ◌⊎◌, ◌%◌, ◌≡◌, refl, sym, Bool, true, false, [], ◌∷◌, All, ◌||◌, ◌∙◌}
use supermq.Errors.{ok}
use supermq.Service.Laws.{Ends}
use supermq.Connections.{new_type, publish_type, subscribe_type, new_type_iff}
use supermq.Policies.{same, listed}
use supermq.Channels.Data.{among, same_connection}
use supermq.Channels.Connect.{all_connections, check_channels, check_clients, check_new, connect}
use supermq.Channels.Connecting.{Kept}
use supermq.Channels.Connected.{Connects, connect-Connects}
use supermq.Channels.Private.{authorize}
use supermq.Channels.Authorized.{client_request, authorize-connect}
use supermq.Channels.Parents.{set_parent_group, remove_parent_group}
use supermq.Channels.InStep.{parent_of, same_parent, not_empty, InStep, Settles}
use supermq.Channels.Setting.{set_parent_group-Settles}
use supermq.Channels.Unsetting.{remove_parent_group-Settles}
use supermq.Channels.Manage.{remove_channel}
use supermq.Channels.Removed.{Goes, remove_channel-Goes}
use supermq.Tests.RoleWorld.{domain_roles, admin_session}
use supermq.Tests.ChannelWorld.{World, one_channel, private_world, fresh}

new_type_iff_example :
    (new_type 257 ≡ ok 1) ↔ ((257 % 256 ≡ 1) × ((1 ≡ publish_type) ⊎ (1 ≡ subscribe_type)))
new_type_iff_example = new_type_iff 257 1

connect_example :
    Ends
      (λ _ w'.
        Connects one_channel admin_session
          ("c1" ∷ [])
          ("k1" ∷ "k2" ∷ [])
          (all_connections "d1" ("c1" ∷ []) ("k1" ∷ "k2" ∷ []) (1 ∷ 2 ∷ []))
          fresh
          w')
      (λ _ w'. Kept one_channel admin_session fresh w')
      (connect one_channel admin_session ("c1" ∷ []) ("k1" ∷ "k2" ∷ []) (1 ∷ 2 ∷ []) fresh)
connect_example =
    connect-Connects one_channel admin_session ("c1" ∷ []) ("k1" ∷ "k2" ∷ []) (1 ∷ 2 ∷ []) fresh

abbrev connected : World
connected = record fresh { connections = all_connections "d1" ("c1" ∷ []) ("k1" ∷ []) (2 ∷ []) }

connects :
    connect one_channel admin_session ("c1" ∷ []) ("k1" ∷ []) (2 ∷ []) fresh ≡ (ok tt, connected)
unfolding connect check_channels check_clients check_new all_connections among same_connection
connects = refl

authorize-connect_example :
    All
      (λ channel.
        All
          (λ client.
            All
              (λ t.
                authorize private_world (client_request "d1" channel client t) connected ≡ ok tt)
              (2 ∷ []))
          ("k1" ∷ []))
      ("c1" ∷ [])
authorize-connect_example =
    authorize-connect private_world admin_session ("c1" ∷ []) ("k1" ∷ []) (2 ∷ []) fresh connected
      connects refl

abbrev with_parent : World
with_parent = record fresh { parent = "g1"; relationships = λ r. same (parent_of "g1" "c1") r }

fresh-InStep : InStep one_channel admin_session "c1" fresh
fresh-InStep group ne = sym (not_empty group ne)

with_parent-InStep : InStep one_channel admin_session "c1" with_parent
unfolding listed
with_parent-InStep group ne =
    or_none (same (parent_of "g1" "c1") (parent_of group "c1")) ∙ same_parent "" "g1" group "c1"
  where
    or_none : (b : Bool) → b ≡ (b || false)
    or_none true = refl
    or_none false = refl

set_parent_group_example :
    Settles one_channel admin_session "c1" "g1"
      (set_parent_group one_channel admin_session "g1" "c1" fresh)
set_parent_group_example =
    set_parent_group-Settles one_channel admin_session "c1" "g1" fresh fresh-InStep

remove_parent_group_example :
    Settles one_channel admin_session "c1" ""
      (remove_parent_group one_channel admin_session "c1" with_parent)
remove_parent_group_example =
    remove_parent_group-Settles one_channel admin_session "c1" with_parent with_parent-InStep

remove_channel_example :
    Goes one_channel domain_roles admin_session "c1"
      (remove_channel one_channel domain_roles admin_session "c1" with_parent)
remove_channel_example = remove_channel-Goes one_channel domain_roles admin_session "c1" with_parent

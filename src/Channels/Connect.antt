-- ===== src/Channels/Connect.antt =====
-- Connecting channels and clients in channels/service.go, and the authorization over the
-- connections in channels/private/service.go.
use Prim.Native.String.{◌++◌ as join}
use text.Mathlib.Text.{◌==◌}
use supermq.Common.{ℕ, String, not, List, [], ◌∷◌, ◌++◌, map, none, if◌then◌else◌, ◌==◌ as equal}
use supermq.Errors.{Err, new, foreign, wrap, Result, ok, err}
use supermq.Service.{
  Action, ◌>>=◌, ◌>>◌, pure, read, or_wrap, create_entity, remove_entity, conflict,
}
use supermq.Roles.Data.{Session}
use supermq.Connections.{conn_type_text}
use supermq.Channels.Data.{status_number, enabled, Channel, Connection, Entity, ChannelWorld}

abbrev pub add_connections_clients : Err
add_connections_clients = new none "failed to add connections in clients service"

abbrev pub remove_connections_clients : Err
remove_connections_clients = new none "failed to remove connections from clients service"

-- `fmt.Errorf("<what> id %s <problem>", id)`
abbrev pub complaint : String → String → String → Err
complaint what id problem = foreign (join what (join " id " (join id problem)))

-- The checks of a channel in Connect.
abbrev pub channel_usable : Session → String → Channel → Result (Unit {0})
channel_usable session id c =
    if not (equal (status_number c.status) (status_number enabled))
    then err (wrap create_entity (complaint "channel" id " is not in enabled state"))
    else if not (c.domain == session.domain_id)
    then err (wrap create_entity (complaint "channel" id " has invalid domain id"))
    else ok tt

-- The checks of a client in Connect.
abbrev pub client_usable : Session → String → Entity → Result (Unit {0})
client_usable session id e =
    if not (equal e.status (status_number enabled))
    then err (wrap create_entity (complaint "client" id " is not in enabled state"))
    else if not (e.domain_id == session.domain_id)
    then err (wrap create_entity (complaint "client" id " has invalid domain id"))
    else ok tt

-- The checks in Disconnect.
abbrev pub in_domain : Session → String → String → String → Result (Unit {0})
in_domain session what id domain =
    if domain == session.domain_id
    then ok tt
    else err (wrap remove_entity (complaint what id " has invalid domain id"))

abbrev pub connection : String → String → String → ℕ → Connection
connection domain channel client type = record {
  client_id = client;
  channel_id = channel;
  domain_id = domain;
  type = type;
}

-- The two inner loops over a channel.
abbrev pub channel_connections : String → String → List String → List ℕ → List Connection
channel_connections domain channel [] types = []
channel_connections domain channel (client ∷ clients) types =
    map (connection domain channel client) types ++ channel_connections domain channel clients types

-- The connections of every channel with every client, one of each type.
unfoldable pub all_connections : String → List String → List String → List ℕ → List Connection
all_connections domain [] clients types = []
all_connections domain (channel ∷ channels) clients types =
    channel_connections domain channel clients types
    ++ all_connections domain channels clients types

abbrev pub connected_text : Connection → Err
connected_text c = foreign (
    join "channel " (
      join c.channel_id (
        join " and client " (
          join c.client_id (
            join " are already connected for type "
              (join (conn_type_text c.type) (join " in domain " (join c.domain_id " "))))))))

module _ {W : Type 0} (world : ChannelWorld W) where
  open world use {repo, clients}

  -- The loop over the channels in Connect.
  unfoldable pub check_channels : Session → List String → Action W (Unit {0})
  check_channels session [] = pure tt
  check_channels session (id ∷ ids) = or_wrap create_entity (read (repo.retrieve_by_id id)) >>= λ c.
      read (λ _. channel_usable session id c) >> check_channels session ids

  -- The loop over the clients in Connect.
  unfoldable pub check_clients : Session → List String → Action W (Unit {0})
  check_clients session [] = pure tt
  check_clients session (id ∷ ids) =
      or_wrap create_entity (read (clients.retrieve_entity id)) >>= λ e.
      read (λ _. client_usable session id e) >> check_clients session ids

  -- A connection is new if it is not found.
  abbrev pub new_connection : Connection → Result (Unit {0}) → Result (Unit {0})
  new_connection c (ok _) = err (wrap conflict (connected_text c))
  new_connection c (err e) = if repo.is_not_found e then ok tt else err (wrap create_entity e)

  -- The loop over the connections in Connect.
  unfoldable pub check_new : List Connection → Action W (Unit {0})
  check_new [] = pure tt
  check_new (c ∷ cs) = read (λ w. new_connection c (repo.check_connection c w)) >> check_new cs

  -- The end of Connect.
  abbrev pub store_connections : List Connection → Action W (Unit {0})
  store_connections cs =
      or_wrap create_entity (or_wrap add_connections_clients (clients.add_connections cs))
      >> or_wrap create_entity (repo.add_connections cs)

  -- Connect
  unfoldable pub connect : Session → List String → List String → List ℕ → Action W (Unit {0})
  unfolding check_channels check_clients check_new all_connections
  connect session channel_ids client_ids types =
      let cs = all_connections session.domain_id channel_ids client_ids types in
      check_channels session channel_ids
      >> (check_clients session client_ids >> (check_new cs >> store_connections cs))

  -- The loops over the channels and the clients in Disconnect.
  unfoldable pub check_channels_domain : Session → List String → Action W (Unit {0})
  check_channels_domain session [] = pure tt
  check_channels_domain session (id ∷ ids) =
      or_wrap remove_entity (read (repo.retrieve_by_id id)) >>= λ c.
      read (λ _. in_domain session "channel" id c.domain) >> check_channels_domain session ids

  unfoldable pub check_clients_domain : Session → List String → Action W (Unit {0})
  check_clients_domain session [] = pure tt
  check_clients_domain session (id ∷ ids) =
      or_wrap remove_entity (read (clients.retrieve_entity id)) >>= λ e.
      read (λ _. in_domain session "client" id e.domain_id) >> check_clients_domain session ids

  -- Disconnect
  unfoldable pub disconnect : Session → List String → List String → List ℕ → Action W (Unit {0})
  unfolding check_channels_domain check_clients_domain all_connections
  disconnect session channel_ids client_ids types =
      let cs = all_connections session.domain_id channel_ids client_ids types in
      check_channels_domain session channel_ids
      >> (check_clients_domain session client_ids
          >> (or_wrap remove_entity
                (or_wrap remove_connections_clients (clients.remove_connections cs))
              >> or_wrap remove_entity (repo.remove_connections cs)))

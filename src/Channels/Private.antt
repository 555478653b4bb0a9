-- ===== src/Channels/Private.antt =====
-- The service that the other services call, channels/private/service.go.
use text.Mathlib.Text.{◌==◌}
use supermq.Common.{ℕ, String, Bool, true, false, none, if◌then◌else◌}
use supermq.Errors.{Err, new, wrap, Result, ok, err, wrapping, ◌>>=◌}
use supermq.Service.{Action, view_entity, update_entity}
use supermq.Policies.{Policy, no_policy}
use supermq.Policies.Spicedb.{authorization_error, authentication}
use supermq.Connections.{conn_permission}
use supermq.Domains.Data.{Status}
use supermq.Channels.Data.{Channel, Connection, ChannelWorld}

abbrev pub disabled_domain : Err
disabled_domain = new none "domain is disabled or frozen"

pub record AuthzReq : Type 0 where
  pub domain_id : String
  pub channel_id : String
  pub client_id : String
  pub client_type : String
  pub type : ℕ

-- What the private service is built over: the evaluator of policies, the domains and the cache.
pub record PrivateWorld (W : Type 0) : Type 0 where
  pub channels : ChannelWorld W
  pub check_policy : Policy → W → Result (Unit {0})
  pub domain_status : String → W → Result Status
  pub cached_id : String → String → W → Result String
  pub cache_id : String → String → String → Action W (Unit {0})
  pub retrieve_by_route : String → String → W → Result Channel

abbrev pub is_enabled : Status → Bool
is_enabled Status.enabled = true
is_enabled _ = false

-- The policy of a user that Authorize asks for.
abbrev pub user_policy : AuthzReq → String → Policy
user_policy req permission = record no_policy {
  subject = req.client_id;
  subject_type = "user";
  object = req.channel_id;
  permission = permission;
  object_type = "channel";
}

abbrev pub requested : AuthzReq → Connection
requested req = record {
  client_id = req.client_id;
  channel_id = req.channel_id;
  domain_id = req.domain_id;
  type = req.type;
}

module _ {W : Type 0} (world : PrivateWorld W) where
  open world use {channels, check_policy, domain_status, cached_id, cache_id, retrieve_by_route}

  -- The switch of Authorize on the client's type.
  unfoldable pub authorize_client : AuthzReq → W → Result (Unit {0})
  unfolding conn_permission
  authorize_client req w =
      if req.client_type == "user"
      then (conn_permission req.type >>= λ permission.
          wrapping authorization_error (check_policy (user_policy req permission) w))
      else if req.client_type == "client"
      then wrapping authorization_error (channels.repo.client_authorize (requested req) w)
      else err authentication

  -- Authorize
  unfoldable pub authorize : AuthzReq → W → Result (Unit {0})
  unfolding authorize_client
  authorize req w = wrapping authorization_error (domain_status req.domain_id w) >>= λ status.
      if is_enabled status
      then authorize_client req w
      else err (wrap authorization_error disabled_domain)

  abbrev pub cached : String → String → Channel → W → Result String × W
  cached route domain ch w =
      let (r, w') = cache_id route domain ch.id w in
      (wrapping update_entity r >>= λ _. ok ch.id, w')

  abbrev pub looked_up : String → String → Result Channel → W → Result String × W
  looked_up route domain (err e) w = (err e, w)
  looked_up route domain (ok ch) w = cached route domain ch w

  -- RetrieveIDByRoute, given what the cache answers.
  abbrev pub id_or_lookup : String → String → Result String → W → Result String × W
  id_or_lookup route domain (ok id) w = (ok id, w)
  id_or_lookup route domain (err _) w =
      looked_up route domain (wrapping view_entity (retrieve_by_route route domain w)) w

  -- RetrieveIDByRoute
  unfoldable pub retrieve_id_by_route : String → String → Action W String
  retrieve_id_by_route route domain w = id_or_lookup route domain (cached_id route domain w) w

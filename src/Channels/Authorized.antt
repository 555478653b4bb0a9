-- ===== src/Channels/Authorized.antt =====
-- What Authorize of channels/private/service.go answers to clients after Connect of
-- channels/service.go.
use supermq.Common.{
  ℕ, String, ◌≡◌, ap, ◌∙◌, subst, true, ◌||◌, List, All, All-weaken, if◌then◌else◌,
}
use supermq.Errors.{Result, ok, err, wrap, wrapping, ◌>>=◌}
use supermq.Service.Laws.{Ends}
use supermq.Policies.Spicedb.{authorization_error}
use supermq.Roles.Data.{Session}
use supermq.Domains.Data.{enabled}
use supermq.Channels.Data.{Connection, among}
use supermq.Channels.Connect.{all_connections, connect}
use supermq.Channels.Connecting.{Kept}
use supermq.Channels.Connected.{Connects, All-among, of_channels, connect-Connects}
use supermq.Channels.Private.{
  AuthzReq, PrivateWorld, is_enabled, disabled_domain, authorize_client, authorize,
}

-- The request of a client that sends or receives over a channel.
abbrev pub client_request : String → String → String → ℕ → AuthzReq
client_request domain channel client type = record {
  domain_id = domain;
  channel_id = channel;
  client_id = client;
  client_type = "client";
  type = type;
}

module _ {W : Type 0} (world : PrivateWorld W) (session : Session) where
  open world use {channels, domain_status}

  abbrev of_connection : Connection → AuthzReq
  of_connection c = client_request c.domain_id c.channel_id c.client_id c.type

  connected_authorized :
      (c : Connection) (w : W)
      → channels.repo.connected w c ≡ true
      → authorize_client world (of_connection c) w ≡ ok tt
  unfolding authorize_client
  connected_authorized c w h = ap (wrapping authorization_error) (channels.repo.authorizes c w h)

  in_enabled_domain :
      (req : AuthzReq) (w : W) (answer : Result (Unit {0}))
      → domain_status req.domain_id w ≡ ok enabled
      → authorize_client world req w ≡ answer
      → authorize world req w ≡ answer
  unfolding authorize
  in_enabled_domain req w answer s h =
      ap
        (λ r. wrapping authorization_error r >>= λ status.
          if is_enabled status
          then authorize_client world req w
          else err (wrap authorization_error disabled_domain))
        s
      ∙ h

  connects-All :
      (cs : List Connection) (w w' : W)
      → ((c : Connection)
          → channels.repo.connected w' c ≡ (among cs c || channels.repo.connected w c))
      → All (λ c. authorize_client world (of_connection c) w' ≡ ok tt) cs
  connects-All cs w w' added =
      All-weaken (λ c. among cs c ≡ true) (λ c. authorize_client world (of_connection c) w' ≡ ok tt)
        cs
        (λ c h. connected_authorized c w' (added c ∙ ap (λ b. b || channels.repo.connected w c) h))
        (All-among cs)

  ended :
      (channel_ids client_ids : List String) (cs : List Connection) (w w' : W)
      (end : Result (Unit {0}) × W)
      → Ends
          (λ _ w'. Connects channels session channel_ids client_ids cs w w')
          (λ _ w'. Kept channels session w w')
          end
      → end ≡ (ok tt, w')
      → Connects channels session channel_ids client_ids cs w w'
  ended channel_ids client_ids cs w w' (ok _, w1) h e =
      subst (Connects channels session channel_ids client_ids cs w) (ap (λ z. z.1) e) h
  ended channel_ids client_ids cs w w' (err _, w1) h e = cc

  -- After Connect has succeeded, and while the domain is enabled, Authorize lets every one of the
  -- clients use every one of the channels for each of the types.
  pub authorize-connect :
      (channel_ids client_ids : List String) (types : List ℕ) (w w' : W)
      → connect channels session channel_ids client_ids types w ≡ (ok tt, w')
      → domain_status session.domain_id w' ≡ ok enabled
      → All
          (λ channel.
            All
              (λ client.
                All
                  (λ t.
                    authorize world (client_request session.domain_id channel client t) w' ≡ ok tt)
                  types)
              client_ids)
          channel_ids
  authorize-connect channel_ids client_ids types w w' done status =
      let cs = all_connections session.domain_id channel_ids client_ids types in
      let (_, (_, (_, added))) =
        ended channel_ids client_ids cs w w'
          (connect channels session channel_ids client_ids types w)
          (connect-Connects channels session channel_ids client_ids types w) done in
      All-weaken _ _ channel_ids
        (λ channel. All-weaken _ _ client_ids (λ client. All-weaken _ _ types (λ t h.
          in_enabled_domain (client_request session.domain_id channel client t) w' (ok tt) status
            h)))
        (of_channels (λ c. authorize_client world (of_connection c) w' ≡ ok tt) session.domain_id
          channel_ids client_ids types (connects-All cs w w' added))

-- ===== src/Channels/Connected.antt =====
-- Connect of channels/service.go as a whole, and what Authorize of channels/private/service.go
-- answers after it.
use text.Mathlib.Text.{◌==◌}
use text.Mathlib.TextPositions.{eq_refl}
use supermq.Common.{
  ℕ, String, ◌≡◌, refl, sym, ap, ◌∙◌, subst, Bool, true, false, ◌&&◌, ◌||◌, List, [], ◌∷◌, map, All,
  All-split, All-weaken, ==_refl, ◌==◌ as equal,
}
use supermq.Errors.{Result, ok, err}
use supermq.Service.{Action, ◌>>◌}
use supermq.Service.Laws.{Ends, Ends-weaken}
use supermq.Roles.Data.{Session}
use supermq.Channels.Data.{Connection, ChannelWorld, among, same_connection}
use supermq.Channels.Connect.{
  connection, channel_connections, all_connections, check_channels, check_clients, check_new,
  store_connections, connect,
}
use supermq.Channels.Connecting.{
  Checks, UsableChannel, UsableClient, Kept, Connected, channels_checked, clients_checked,
  new_checked, stored,
}

among_or : (a b : Bool) → b ≡ true → (a || b) ≡ true
among_or true b h = refl
among_or false b h = h

same_refl : (c : Connection) → same_connection c c ≡ true
unfolding same_connection
same_refl c =
    ap
      (λ b.
        b && (c.channel_id == c.channel_id && (c.domain_id == c.domain_id && equal c.type c.type)))
      (eq_refl c.client_id)
    ∙ ap (λ b. b && (c.domain_id == c.domain_id && equal c.type c.type)) (eq_refl c.channel_id)
    ∙ ap (λ b. b && equal c.type c.type) (eq_refl c.domain_id)
    ∙ ==_refl c.type

pub All-among : (cs : List Connection) → All (λ c. among cs c ≡ true) cs
unfolding among
All-among [] = tt
All-among (x ∷ xs) = (
  ap (λ b. b || among xs x) (same_refl x),
  All-weaken (λ c. among xs c ≡ true) (λ c. among (x ∷ xs) c ≡ true) xs
      (λ c h. among_or (same_connection x c) (among xs c) h) (All-among xs),
)

-- Every channel, every client and every type has its connection.
of_types :
    (P : Connection → Type 0) (domain channel client : String) (types : List ℕ)
    → All P (map (connection domain channel client) types)
    → All (λ t. P (connection domain channel client t)) types
of_types P domain channel client [] h = tt
of_types P domain channel client (t ∷ ts) (here, there) =
    (here, of_types P domain channel client ts there)

of_clients :
    (P : Connection → Type 0) (domain channel : String) (clients : List String) (types : List ℕ)
    → All P (channel_connections domain channel clients types)
    → All (λ client. All (λ t. P (connection domain channel client t)) types) clients
of_clients P domain channel [] types h = tt
of_clients P domain channel (client ∷ clients) types h =
    let (here, there) =
      All-split P (map (connection domain channel client) types)
        (channel_connections domain channel clients types) h in
    (of_types P domain channel client types here, of_clients P domain channel clients types there)

pub of_channels :
    (P : Connection → Type 0) (domain : String) (channels clients : List String) (types : List ℕ)
    → All P (all_connections domain channels clients types)
    → All
        (λ channel. All (λ client. All (λ t. P (connection domain channel client t)) types) clients)
        channels
unfolding all_connections
of_channels P domain [] clients types h = tt
of_channels P domain (channel ∷ channels) clients types h =
    let (here, there) =
      All-split P (channel_connections domain channel clients types)
        (all_connections domain channels clients types) h in
    (
      of_clients P domain channel clients types here,
      of_channels P domain channels clients types there,
    )

module _ {W : Type 0} (world : ChannelWorld W) (session : Session) where
  open world use {repo, clients}

  -- The connections of every channel with every client are new, and are there afterwards.
  abbrev pub Connects : List String → List String → List Connection → W → W → Type 0
  Connects channel_ids client_ids cs w w' =
      All (UsableChannel world session w) channel_ids
      × (All (UsableClient world session w) client_ids
          × (All (λ c. repo.connected w c ≡ false) cs × Connected world session cs w w'))

  -- Going on after a check that succeeded.
  checked_then :
      (P : Type 0) (good : W → Type 0) (w : W) (end : Result (Unit {0}) × W)
      (rest : Action W (Unit {0}))
      → Checks P w end
      → Ends (λ _ w'. good w') (λ _ w'. Kept world session w w') (rest w)
      → Ends (λ _ w'. P × good w') (λ _ w'. Kept world session w w') (((λ _. end) >> rest) w)
  checked_then P good w (err _, w1) rest same h = λ c. ap (λ v. repo.connected v c) same
  checked_then P good w (ok _, w1) rest (same, p) h =
      subst (λ v. Ends (λ _ w'. P × good w') (λ _ w'. Kept world session w w') (rest v)) (sym same)
        (Ends-weaken (λ _. good) (λ _ w'. P × good w') (λ _. Kept world session w)
          (λ _. Kept world session w) (rest w) h (λ _ w' g. (p, g)) (λ _ w' k. k))

  -- If Connect succeeds, every channel and every client was enabled and in the session's domain,
  -- none of their connections of these types was there, and exactly these have been added. With an
  -- error the repository's connections are as before.
  pub connect-Connects :
      (channel_ids client_ids : List String) (types : List ℕ) (w : W)
      → Ends
          (λ _ w'.
            Connects channel_ids client_ids
              (all_connections session.domain_id channel_ids client_ids types)
              w
              w')
          (λ _ w'. Kept world session w w')
          (connect world session channel_ids client_ids types w)
  unfolding connect
  connect-Connects channel_ids client_ids types w =
      let cs = all_connections session.domain_id channel_ids client_ids types in
      checked_then (All (UsableChannel world session w) channel_ids)
        (λ w'.
          All (UsableClient world session w) client_ids
          × (All (λ c. repo.connected w c ≡ false) cs × Connected world session cs w w'))
        w (check_channels world session channel_ids w)
        (check_clients world session client_ids
          >> (check_new world cs >> store_connections world cs))
        (channels_checked world session channel_ids w)
        (checked_then (All (UsableClient world session w) client_ids)
          (λ w'. All (λ c. repo.connected w c ≡ false) cs × Connected world session cs w w') w
          (check_clients world session client_ids w)
          (check_new world cs >> store_connections world cs)
          (clients_checked world session client_ids w)
          (checked_then (All (λ c. repo.connected w c ≡ false) cs)
            (λ w'. Connected world session cs w w') w (check_new world cs w)
            (store_connections world cs) (new_checked world session cs w)
            (stored world session cs w)))

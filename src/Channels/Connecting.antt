-- ===== src/Channels/Connecting.antt =====
-- What Connect of channels/service.go makes sure of, and what it does to the connections.
use text.Mathlib.Text.{◌==◌}
use text.Mathlib.TextEquality.{eq_iff}
use supermq.Common.{
  ℕ, arith, String, ◌≡◌, refl, sym, ap, ◌∙◌, false, ◌||◌, not, List, [], ◌∷◌, All, if◌then◌else◌,
  Bool-cases, inl, inr, ◌==◌ as equal, ==_iff,
}
use supermq.Errors.{Err, Result, ok, err}
use supermq.Service.{Action, ◌>>=◌, ◌>>◌, read, or_wrap, create_entity}
use supermq.Service.Laws.{Ends}
use supermq.Roles.Data.{Session}
use supermq.Channels.Data.{
  status_number, Status, enabled, Channel, Connection, Entity, ChannelWorld, among,
}
use supermq.Channels.Connect.{
  add_connections_clients, channel_usable, client_usable, check_channels, check_clients,
  new_connection, check_new, store_connections,
}

usable_facts :
    (n : ℕ) (d : String) (session : Session) (x y : Err)
    → (if not (equal n 0) then err x else if not (d == session.domain_id) then err y else ok tt)
      ≡ ok tt
    → (n ≡ 0) × (d ≡ session.domain_id)
usable_facts n d session x y h = elim (Bool-cases (equal n 0)) [
  | inl a ↦ elim (Bool-cases (d == session.domain_id)) [
    | inl b ↦ ((==_iff n 0).0 a, (eq_iff d session.domain_id).0 b)
    | inr b ↦ cc
  ]
  | inr a ↦ cc
]

number_enabled : (s : Status) → status_number s ≡ 0 → s ≡ enabled
number_enabled Status.enabled h = refl
number_enabled Status.disabled h = absurd (omega arith)
number_enabled Status.deleted h = absurd (omega arith)
number_enabled Status.all h = absurd (omega arith)

-- A check that reads: what holds if it does not fail.
abbrev pub Checks : {W : Type 0} → Type 0 → W → Result (Unit {0}) × W → Type 0
Checks P w = Ends (λ _ w'. (w' ≡ w) × P) (λ _ w'. w' ≡ w)

with_first :
    {W : Type 0} (P Q : Type 0) (w : W) (end : Result (Unit {0}) × W)
    → P
    → Checks Q w end
    → Checks (P × Q) w end
with_first P Q w (ok _, w') p (same, q) = (same, (p, q))
with_first P Q w (err _, w') p same = same

checked_first :
    {W : Type 0} (P Q : Type 0) (answer : Result (Unit {0})) (rest : Action W (Unit {0})) (w : W)
    → (answer ≡ ok tt → P)
    → Checks Q w (rest w)
    → Checks (P × Q) w ((read (λ _. answer) >> rest) w)
checked_first P Q (ok _) rest w h k = with_first P Q w (rest w) (h refl) k
checked_first P Q (err _) rest w h k = refl

-- One round of a loop that retrieves and checks.
found_first :
    {W A : Type 0} (P Q : Type 0) (found : Result A) (usable : A → Result (Unit {0}))
    (rest : Action W (Unit {0})) (w : W)
    → ((a : A) → found ≡ ok a → usable a ≡ ok tt → P)
    → Checks Q w (rest w)
    → Checks
        (P × Q)
        w
        ((or_wrap create_entity (read (λ _. found)) >>= λ a. read (λ _. usable a) >> rest) w)
found_first P Q (ok a) usable rest w h k = checked_first P Q (usable a) rest w (h a refl) k
found_first P Q (err _) usable rest w h k = refl

module _ {W : Type 0} (world : ChannelWorld W) (session : Session) where
  open world use {repo, clients}

  -- The repository has the channel, enabled and in the session's domain.
  abbrev pub UsableChannel : W → String → Type 0
  UsableChannel w id =
      (c : Channel) × ((repo.retrieve_by_id id w ≡ ok c)
        × ((c.status ≡ enabled) × (c.domain ≡ session.domain_id)))

  -- The clients service has the client, enabled and in the session's domain.
  abbrev pub UsableClient : W → String → Type 0
  UsableClient w id =
      (e : Entity) × ((clients.retrieve_entity id w ≡ ok e)
        × ((e.status ≡ 0) × (e.domain_id ≡ session.domain_id)))

  pub channels_checked :
      (ids : List String) (w : W)
      → Checks (All (UsableChannel w) ids) w (check_channels world session ids w)
  unfolding check_channels
  channels_checked [] w = (refl, tt)
  channels_checked (id ∷ ids) w =
      found_first (UsableChannel w id) (All (UsableChannel w) ids) (repo.retrieve_by_id id w)
        (channel_usable session id) (check_channels world session ids) w
        (λ c found usable.
          let (s, d) = usable_facts (status_number c.status) c.domain session _ _ usable in
          (c, (found, (number_enabled c.status s, d))))
        (channels_checked ids w)

  pub clients_checked :
      (ids : List String) (w : W)
      → Checks (All (UsableClient w) ids) w (check_clients world session ids w)
  unfolding check_clients
  clients_checked [] w = (refl, tt)
  clients_checked (id ∷ ids) w =
      found_first (UsableClient w id) (All (UsableClient w) ids) (clients.retrieve_entity id w)
        (client_usable session id) (check_clients world session ids) w
        (λ e found usable. (e, (found, usable_facts e.status e.domain_id session _ _ usable)))
        (clients_checked ids w)

  new_fact :
      (c : Connection) (w : W) (answer : Result (Unit {0}))
      → repo.check_connection c w ≡ answer
      → new_connection world c answer ≡ ok tt
      → repo.connected w c ≡ false
  new_fact c w (ok _) e h = cc
  new_fact c w (err x) e h = elim (Bool-cases (repo.is_not_found x)) [
    | inl y ↦ repo.checks c w x e y
    | inr n ↦ cc
  ]

  pub new_checked :
      (cs : List Connection) (w : W)
      → Checks (All (λ c. repo.connected w c ≡ false) cs) w (check_new world cs w)
  unfolding check_new
  new_checked [] w = (refl, tt)
  new_checked (c ∷ cs) w =
      checked_first (repo.connected w c ≡ false) (All (λ c. repo.connected w c ≡ false) cs)
        (new_connection world c (repo.check_connection c w)) (check_new world cs) w
        (new_fact c w (repo.check_connection c w) refl) (new_checked cs w)

  abbrev pub Kept : W → W → Type 0
  Kept w w' = (c : Connection) → repo.connected w' c ≡ repo.connected w c

  abbrev pub Connected : List Connection → W → W → Type 0
  Connected cs w w' = (c : Connection) → repo.connected w' c ≡ (among cs c || repo.connected w c)

  repo_stored :
      (cs : List Connection) (w w1 : W) (end : Result (Unit {0}) × W)
      → Kept w w1
      → end ≡ repo.add_connections cs w1
      → Ends (λ _ w'. Connected cs w w') (λ _ w'. Kept w w') (or_wrap create_entity (λ _. end) w1)
  repo_stored cs w w1 (ok _, w2) kept same = λ c.
      ap (λ z. repo.connected z.1 c) same
      ∙ repo.adds_connections cs w1 c (ap (λ z. z.0) (sym same))
      ∙ ap (λ h. among cs c || h) (kept c)
  repo_stored cs w w1 (err e, w2) kept same = λ c.
      ap (λ z. repo.connected z.1 c) same
      ∙ repo.add_connections_fails cs w1 c e (ap (λ z. z.0) (sym same))
      ∙ kept c

  clients_stored :
      (cs : List Connection) (w : W) (end : Result (Unit {0}) × W)
      → Kept w end.1
      → Ends
          (λ _ w'. Connected cs w w')
          (λ _ w'. Kept w w')
          ((or_wrap create_entity (or_wrap add_connections_clients (λ _. end))
              >> or_wrap create_entity (repo.add_connections cs))
            w)
  clients_stored cs w (err _, w1) kept = kept
  clients_stored cs w (ok _, w1) kept = repo_stored cs w w1 (repo.add_connections cs w1) kept refl

  pub stored :
      (cs : List Connection) (w : W)
      → Ends (λ _ w'. Connected cs w w') (λ _ w'. Kept w w') (store_connections world cs w)
  stored cs w = clients_stored cs w (clients.add_connections cs w) (world.clients_keep cs w)

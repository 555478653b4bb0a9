-- ===== src/Channels/Removed.antt =====
-- What RemoveChannel of channels/service.go leaves of a channel.
use text.Mathlib.Text.{◌==◌, starts_with}
use text.Mathlib.TextPositions.{eq_refl, starts_with-append}
use text.Mathlib.TextLemmas.{nil-append}
use supermq.Common.{
  String, ◌≡◌, refl, sym, ap, ◌∙◌, Bool, true, false, not, ◌&&◌, ◌||◌, ◌⊎◌, inl, inr, [], ◌∷◌,
}
use supermq.Errors.{Err, Result, ok, err}
use supermq.Service.{Action, ◌>>=◌, or_wrap, remove_entity, delete_policies_error}
use supermq.Service.Laws.{Ends, Ends-weaken, >>=-Ends}
use supermq.Policies.{Relationship, filter_matches, field_matches}
use supermq.Roles.Data.{Session, Provisioner}
use supermq.Roles.Provision.{remove_entities_roles}
use supermq.Roles.Cleanup.{any_filter, remove_entities_roles-Ends}
use supermq.Channels.Data.{Channel, no_channel, deleted, ChannelWorld}
use supermq.Channels.Manage.{
  removed_filters, removed_policies, drop_connections, uncache, remove_provisioned, remove_channel,
}

-- The relationship has the channel as its object, or as its subject.
abbrev pub Involves : String → Relationship → Type 0
Involves id r =
    ((r.resource_type ≡ "channel") × (r.resource ≡ id))
    ⊎ ((r.subject_type ≡ "channel") × (r.subject ≡ id))

or_true : (a : Bool) → (a || true) ≡ true
or_true true = refl
or_true false = refl

field_same : (wanted s : String) → s ≡ wanted → field_matches wanted s ≡ true
field_same wanted s e =
    ap (λ t. (wanted == "") || (wanted == t)) e
    ∙ ap (λ b. (wanted == "") || b) (eq_refl wanted)
    ∙ or_true (wanted == "")

any_start : (s : String) → starts_with s "" ≡ true
any_start s = ap (λ v. starts_with v "") (sym (nil-append s)) ∙ starts_with-append "" s

of_channel_type : (s : String) → s ≡ "channel" → ("channel" == s) ≡ true
of_channel_type s e = ap (λ t. "channel" == t) e

all_four : (a b c d : Bool) → a ≡ true → b ≡ true → c ≡ true → (a && (b && (c && true))) ≡ true
all_four true true true d x y z = refl
all_four true true false d x y z = z
all_four true false c d x y z = y
all_four false b c d x y z = x

or_left : (a b : Bool) → a ≡ true → (a || b) ≡ true
or_left true b h = refl
or_left false b h = cc

or_right : (a b : Bool) → b ≡ true → (a || (b || false)) ≡ true
or_right true b h = refl
or_right false true h = refl
or_right false false h = cc

filtered :
    (id : String) (r : Relationship) → Involves id r → any_filter (removed_filters id) r ≡ true
unfolding filter_matches
filtered id r (inl (type, object)) = or_right _ _ (
    all_four ("channel" == r.resource_type) (field_matches id r.resource)
      (starts_with r.resource "") true (of_channel_type r.resource_type type)
      (field_same id r.resource object) (any_start r.resource))
filtered id r (inr (type, subject)) = or_left _ _ (
    all_four (starts_with r.resource "") ("channel" == r.subject_type) (field_matches id r.subject)
      true (any_start r.resource) (of_channel_type r.subject_type type)
      (field_same id r.subject subject))

filtered_out : (m b : Bool) → m ≡ true → (not m && b) ≡ false
filtered_out true b h = refl
filtered_out false b h = cc

module _ {W : Type 0} (world : ChannelWorld W) (p : Provisioner) (session : Session)
    (id : String) where
  open world use {roles, repo}

  abbrev pub NoPolicies : W → Type 0
  NoPolicies w = (r : Relationship) → Involves id r → roles.policy.holds w r ≡ false

  -- The repository does not know the channel, and no relationship involves it.
  abbrev pub Gone : W → Type 0
  Gone w = (repo.known w id ≡ false) × NoPolicies w

  abbrev pub Goes : Result (Unit {0}) × W → Type 0
  Goes = Ends (λ _ w'. Gone w') (λ _ _. Unit)

  deleted_end :
      (w : W) (end : Result (Unit {0}) × W)
      → NoPolicies w
      → end ≡ repo.remove (id ∷ []) w
      → Goes (or_wrap remove_entity (λ _. end) w)
  deleted_end w (err _, w') none same = tt
  deleted_end w (ok _, w') none same = (
    ap (λ z. repo.known z.1 id) same
        ∙ (repo.remove_forgets (id ∷ []) w (ap (λ z. z.0) (sym same))).0,
    λ r h. ap (λ z. roles.policy.holds z.1 r) same ∙ world.remove_keeps (id ∷ []) w r ∙ none r h,
  )

  wrapped_end :
      (w : W) (e : Err) (end : Result (Unit {0}) × W)
      → Ends (λ _ w'. NoPolicies w') (λ _ _. Unit) end
      → Ends {A = Unit {0}} (λ _ w'. NoPolicies w') (λ _ _. Unit) (or_wrap e (λ _. end) w)
  wrapped_end w e (ok _, w') h = h
  wrapped_end w e (err _, w') h = tt

  provisioned_end : (ch : Channel) (w : W) → Goes (remove_provisioned world p session id ch w)
  provisioned_end ch w =
      >>=-Ends (λ _ w'. NoPolicies w') (λ _ _. Unit) (λ _ w'. Gone w') (λ _ _. Unit)
        (or_wrap delete_policies_error
          (remove_entities_roles roles p session.domain_id (id ∷ []) (removed_filters id)
            (removed_policies session ch id))
          w)
        (λ _. or_wrap remove_entity (repo.remove (id ∷ []))) w
        (wrapped_end w _
          (remove_entities_roles roles p session.domain_id (id ∷ []) (removed_filters id)
            (removed_policies session ch id) w)
          (Ends-weaken _ (λ _ w'. NoPolicies w') _ (λ _ _. Unit)
            (remove_entities_roles roles p session.domain_id (id ∷ []) (removed_filters id)
              (removed_policies session ch id) w)
            (remove_entities_roles-Ends roles p session.domain_id (id ∷ []) (removed_filters id)
              (removed_policies session ch id) w)
            (λ _ w' h r i.
              h.2 r ∙ filtered_out (any_filter (removed_filters id) r) _ (filtered id r i))
            (λ _ _ _. tt)))
        (λ _ w1 none. deleted_end w1 (repo.remove (id ∷ []) w1) none refl) (λ _ _ _. tt)

  after_any :
      {A : Type 0} (end : Result A × W) (rest : A → Action W (Unit {0})) (w : W)
      → ((a : A) (w1 : W) → Goes (rest a w1))
      → Goes (((λ _. end) >>= rest) w)
  after_any (ok a, w1) rest w h = h a w1
  after_any (err _, w1) rest w h = tt

  -- If RemoveChannel succeeds, the repository does not know the channel, and no relationship has it
  -- as its object or as its subject.
  pub remove_channel-Goes : (w : W) → Goes (remove_channel world p session id w)
  unfolding remove_channel
  remove_channel-Goes w = after_any (drop_connections world p id w) _ w (λ _ w1.
      after_any
        (or_wrap remove_entity
          (repo.change_status (record no_channel { id = id; status = deleted })) w1)
        _ w1 (λ ch w2. after_any (uncache world p ch w2) _ w2 (λ _ w3. provisioned_end ch w3)))

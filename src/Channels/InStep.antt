-- ===== src/Channels/InStep.antt =====
-- The parent group of a channel is kept twice, in the repository and as a policy: what SetParentGroup
-- and RemoveParentGroup of channels/service.go do to the two.
use text.Mathlib.Text.{◌==◌}
use text.Mathlib.TextPositions.{eq_refl}
use text.Mathlib.TextEquality.{eq_iff}
use supermq.Common.{
  String, ◌≡◌, refl, sym, ap, ◌∙◌, Bool, true, false, not, ◌&&◌, ◌||◌, ◌⊎◌, inl, inr, Bool-cases,
  [], ◌∷◌,
}
use supermq.Errors.{Err, Result, ok}
use supermq.Service.{rollback_tx_error}
use supermq.Service.Laws.{Ends}
use supermq.Policies.{Relationship, to_relationship, same, listed}
use supermq.Policies.Atomic.{RollbackFailed, Unchanged}
use supermq.Roles.Data.{Session}
use supermq.Channels.Data.{ChannelWorld}
use supermq.Channels.Parents.{parent_policy, parentless}

-- The relationship that makes the group the channel's parent.
abbrev pub parent_of : String → String → Relationship
parent_of group id = to_relationship (parent_policy "" group id)

pub same_parent :
    (domain g h id : String) → listed (parent_policy domain g id ∷ []) (parent_of h id) ≡ (g == h)
unfolding listed same
same_parent domain g h id =
    ap (λ b. (b && ((g == h) && true)) || false) (eq_refl id) ∙ unit (g == h)
  where
    unit : (b : Bool) → ((b && true) || false) ≡ b
    unit true = refl
    unit false = refl

pub not_empty : (h : String) → (h == "") ≡ false → ("" == h) ≡ false
not_empty h e = elim (Bool-cases ("" == h)) [
  | inl a ↦ a ∙ ap (λ s. s == "") ((eq_iff "" h).0 a) ∙ e
  | inr a ↦ a
]

pub taken_back : (b c : Bool) → c ≡ false → (not b && (b || c)) ≡ c
taken_back true c h = sym h
taken_back false c h = refl

pub put_back : (b : Bool) → (b || (not b && b)) ≡ b
put_back true = refl
put_back false = refl

pub taken_away : (b : Bool) → (not b && b) ≡ false
taken_away true = refl
taken_away false = refl

pub or_nothing : (b c : Bool) → c ≡ false → (b || c) ≡ b
or_nothing true c h = refl
or_nothing false c h = h

pub parentless-ok : (group current : String) → parentless group current ≡ ok tt → current ≡ ""
parentless-ok group current h = elim (Bool-cases (current == group)) [
  | inl a ↦ cc
  | inr a ↦ elim (Bool-cases (current == "")) [ inl b ↦ (eq_iff current "").0 b | inr b ↦ cc ]
]

module _ {W : Type 0} (world : ChannelWorld W) (session : Session) (id : String) where
  open world use {roles, repo, retrieve_group}

  -- The policies say of the channel's parent group what the repository says.
  abbrev pub InStep : W → Type 0
  InStep w =
      (group : String)
      → (group == "") ≡ false
      → roles.policy.holds w (parent_of group id) ≡ (repo.parent w id == group)

  -- What an error leaves.
  abbrev pub InStepOr : Err → W → Type 0
  InStepOr e w = InStep w ⊎ RollbackFailed rollback_tx_error e

  abbrev pub Good : String → W → Type 0
  Good parent w = InStep w × (repo.parent w id ≡ parent)

  abbrev pub Settles : String → Result (Unit {0}) × W → Type 0
  Settles parent = Ends (λ _ w'. Good parent w') InStepOr

  -- The policy of a world that comes of another by a step, and the parent there.
  pub held_then :
      (w : W) (group : String) (f : Bool → Bool → Bool) (h : String) (parent : String)
      → InStep w
      → repo.parent w id ≡ parent
      → (h == "") ≡ false
      → f
          (listed (parent_policy session.domain_id group id ∷ []) (parent_of h id))
          (roles.policy.holds w (parent_of h id))
        ≡ f (group == h) (parent == h)
  held_then w group f h parent step same ne =
      ap (λ b. f b (roles.policy.holds w (parent_of h id)))
        (same_parent session.domain_id group h id)
      ∙ ap (f (group == h)) (step h ne ∙ ap (λ p. p == h) same)

  pub kept-InStep :
      (w w' : W) (parent : String)
      → InStep w
      → repo.parent w id ≡ parent
      → Unchanged roles.policy w w'
      → repo.parent w' id ≡ parent
      → InStep w'
  kept-InStep w w' parent step same kept same' h ne =
      kept (parent_of h id) ∙ step h ne ∙ ap (λ p. p == h) (same ∙ sym same')

-- ===== src/Policies/Atomic.antt =====
-- Policies that are added, and deleted again if what follows fails.
use supermq.Common.{
  ◌≡◌, refl, sym, ap, ◌∙◌, ◌⊎◌, inl, inr, Bool, true, false, not, ◌&&◌, ◌||◌, List, [],
}
use supermq.Errors.{Err, Result, ok, err, wrap}
use supermq.Service.{Action, ◌>>◌, or_wrap, undoing, after_rollback}
use supermq.Service.Laws.{Ends}
use supermq.Policies.{Policy, Relationship, PolicyStore, listed}

-- The error says that the rollback failed.
abbrev pub RollbackFailed : Err → Err → Type 0
RollbackFailed rollback_error e =
    (before : Err) × (cause : Err) × (e ≡ wrap before (wrap rollback_error cause))

module _ {W : Type 0} (store : PolicyStore W) where
  abbrev pub Unchanged : W → W → Type 0
  Unchanged w w' = (r : Relationship) → store.holds w' r ≡ store.holds w r

  abbrev pub Added : List Policy → W → W → Type 0
  Added prs w w' = (r : Relationship) → store.holds w' r ≡ (listed prs r || store.holds w r)

  abbrev pub Deleted : List Policy → W → W → Type 0
  Deleted prs w w' = (r : Relationship) → store.holds w' r ≡ (not (listed prs r) && store.holds w r)

  abbrev pub Fresh : List Policy → W → Type 0
  Fresh prs w = (r : Relationship) → listed prs r ≡ true → store.holds w r ≡ false

  -- All of the policies are added, none of which was there; or it is an error and none are, unless
  -- the error says that they could not be taken back.
  abbrev pub AllOrNothing : {A : Type 0} → Err → List Policy → W → Result A × W → Type 0
  AllOrNothing rollback_error prs w =
      Ends (λ _ w'. Fresh prs w × Added prs w w')
        (λ e w'. Unchanged w w' ⊎ (RollbackFailed rollback_error e × Added prs w w'))

  takes_back : (l h : Bool) → (l ≡ true → h ≡ false) → (not l && (l || h)) ≡ h
  takes_back true h fresh = sym (fresh refl)
  takes_back false h fresh = refl

  module _ (prs : List Policy) (rollback_error : Err) where
    undone :
        (A : Type 0) (u : Result (Unit {0}) × W) (e : Err) (w w2 : W)
        → u ≡ store.delete prs w2
        → Added prs w w2
        → Fresh prs w
        → AllOrNothing {A = A} rollback_error prs w (after_rollback e rollback_error u.0, u.1)
    undone A (ok _, w3) e w w2 same added fresh = inl (λ r.
        ap (λ z. store.holds z.1 r) same
        ∙ store.delete_deletes prs w2 r (ap (λ z. z.0) (sym same))
        ∙ ap (λ h. not (listed prs r) && h) (added r)
        ∙ takes_back (listed prs r) (store.holds w r) (fresh r))
    undone A (err cause, w3) e w w2 same added fresh = inr (
      (e, cause, refl),
      λ r.
          ap (λ z. store.holds z.1 r) same
          ∙ store.delete_fails prs w2 r cause (ap (λ z. z.0) (sym same))
          ∙ added r,
    )

    rest_ends :
        {A : Type 0} (end : Result A × W) (w : W)
        → Added prs w end.1
        → Fresh prs w
        → AllOrNothing rollback_error prs w (undoing (store.delete prs) rollback_error (λ _. end) w)
    rest_ends (ok a, w2) w added fresh = (fresh, added)
    rest_ends (err e, w2) w added fresh = undone _ (store.delete prs w2) e w w2 refl added fresh

    add_ends :
        {A : Type 0} (e : Err) (added : Result (Unit {0}) × W) (rest : Action W A) (w : W)
        → added ≡ store.add prs w
        → ((w1 : W) → Unchanged w1 (rest w1).1)
        → AllOrNothing rollback_error prs w
            ((or_wrap e (λ _. added) >> undoing (store.delete prs) rollback_error rest) w)
    add_ends e (err e', w1) rest w same kept = inl (λ r.
        ap (λ z. store.holds z.1 r) same ∙ store.add_fails prs w r e' (ap (λ z. z.0) (sym same)))
    add_ends e (ok _, w1) rest w same kept =
        rest_ends (rest w1) w
          (λ r.
            kept w1 r
            ∙ ap (λ z. store.holds z.1 r) same
            ∙ store.add_adds prs w r (ap (λ z. z.0) (sym same)))
          (λ r l. store.add_creates prs w r (ap (λ z. z.0) (sym same)) l)

  -- Adding policies before what may fail, and deleting them if it does.
  pub adding-AllOrNothing :
      {A : Type 0} (prs : List Policy) (e rollback_error : Err) (rest : Action W A) (w : W)
      → ((w1 : W) → Unchanged w1 (rest w1).1)
      → AllOrNothing rollback_error prs w
          ((or_wrap e (store.add prs) >> undoing (store.delete prs) rollback_error rest) w)
  adding-AllOrNothing prs e rollback_error rest w kept =
      add_ends prs rollback_error e (store.add prs w) rest w refl kept

  -- The same, after what left the policies alone.
  pub from-Unchanged :
      {A : Type 0} (prs : List Policy) (rollback_error : Err) (w w1 : W) (end : Result A × W)
      → Unchanged w w1
      → AllOrNothing rollback_error prs w1 end
      → AllOrNothing rollback_error prs w end
  from-Unchanged prs rollback_error w w1 (ok a, w2) kept (fresh, added) =
      (λ r l. sym (kept r) ∙ fresh r l, λ r. added r ∙ ap (λ h. listed prs r || h) (kept r))
  from-Unchanged prs rollback_error w w1 (err e, w2) kept (inl same) = inl (λ r. same r ∙ kept r)
  from-Unchanged prs rollback_error w w1 (err e, w2) kept (inr (failed, added)) =
      inr (failed, λ r. added r ∙ ap (λ h. listed prs r || h) (kept r))

  -- Without policies, what leaves the store alone adds all of them.
  pub nothing-AllOrNothing :
      {A : Type 0} (rollback_error : Err) (w : W) (end : Result A × W)
      → Unchanged w end.1
      → AllOrNothing rollback_error [] w end
  unfolding listed
  nothing-AllOrNothing rollback_error w (ok a, w2) kept = (λ r l. cc, kept)
  nothing-AllOrNothing rollback_error w (err e, w2) kept = inl kept

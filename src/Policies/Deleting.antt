-- ===== src/Policies/Deleting.antt =====
-- Steps that delete policies: what is left of the store, also after an error.
use supermq.Common.{◌≡◌, refl, sym, ap, ◌∙◌, Bool, true, false, not, ◌&&◌, List}
use supermq.Errors.{Err, Result, ok, err}
use supermq.Service.{or_wrap}
use supermq.Service.Laws.{Ends}
use supermq.Policies.{Policy, Relationship, PolicyStore, listed, filter_matches}
use supermq.Policies.Atomic.{Unchanged, Deleted}

module _ {W : Type 0} (store : PolicyStore W) where
  -- Nothing has come into the store.
  abbrev pub NothingNew : W → W → Type 0
  NothingNew w w' = (r : Relationship) → store.holds w r ≡ false → store.holds w' r ≡ false

  abbrev pub Filtered : Policy → W → W → Type 0
  Filtered f w w' =
      (r : Relationship) → store.holds w' r ≡ (not (filter_matches f r) && store.holds w r)

  and_false : (a b : Bool) → b ≡ false → (a && b) ≡ false
  and_false true b h = h
  and_false false b h = refl

  pub Unchanged→NothingNew : (w w' : W) → Unchanged store w w' → NothingNew w w'
  Unchanged→NothingNew w w' same r h = same r ∙ h

  pub Deleted→NothingNew : (prs : List Policy) (w w' : W) → Deleted store prs w w' → NothingNew w w'
  Deleted→NothingNew prs w w' gone r h = gone r ∙ and_false (not (listed prs r)) (store.holds w r) h

  pub Filtered→NothingNew : (f : Policy) (w w' : W) → Filtered f w w' → NothingNew w w'
  Filtered→NothingNew f w w' gone r h =
      gone r ∙ and_false (not (filter_matches f r)) (store.holds w r) h

  delete_end :
      (prs : List Policy) (e : Err) (w : W) (end : Result (Unit {0}) × W)
      → end ≡ store.delete prs w
      → Ends
          (λ _ w'. Deleted store prs w w')
          (λ _ w'. Unchanged store w w')
          (or_wrap e (λ _. end) w)
  delete_end prs e w (ok _, w') same = λ r.
      ap (λ z. store.holds z.1 r) same ∙ store.delete_deletes prs w r (ap (λ z. z.0) (sym same))
  delete_end prs e w (err e', w') same = λ r.
      ap (λ z. store.holds z.1 r) same ∙ store.delete_fails prs w r e' (ap (λ z. z.0) (sym same))

  -- A checked deletion deletes, or changes nothing.
  pub delete-Ends :
      (prs : List Policy) (e : Err) (w : W)
      → Ends
          (λ _ w'. Deleted store prs w w')
          (λ _ w'. Unchanged store w w')
          (or_wrap e (store.delete prs) w)
  delete-Ends prs e w = delete_end prs e w (store.delete prs w) refl

  filter_end :
      (f : Policy) (e : Err) (w : W) (end : Result (Unit {0}) × W)
      → end ≡ store.delete_filter f w
      → Ends (λ _ w'. Filtered f w w') (λ _ w'. Unchanged store w w') (or_wrap e (λ _. end) w)
  filter_end f e w (ok _, w') same =
      λ r. ap (λ z. store.holds z.1 r) same ∙ store.filter_deletes f w r (ap (λ z. z.0) (sym same))
  filter_end f e w (err e', w') same =
      λ r. ap (λ z. store.holds z.1 r) same ∙ store.filter_fails f w r e' (ap (λ z. z.0) (sym same))

  pub delete_filter-Ends :
      (f : Policy) (e : Err) (w : W)
      → Ends
          (λ _ w'. Filtered f w w')
          (λ _ w'. Unchanged store w w')
          (or_wrap e (store.delete_filter f) w)
  delete_filter-Ends f e w = filter_end f e w (store.delete_filter f w) refl

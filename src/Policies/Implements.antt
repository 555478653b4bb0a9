-- ===== src/Policies/Implements.antt =====
-- What an implementation of policies.Service (pkg/policies/service.go) owes its users, by the way
-- its writes end.
use supermq.Common.{◌≡◌, Bool, true, false, not, ◌&&◌, ◌||◌, List}
use supermq.Errors.{Err, Result, ok, err}
use supermq.Service.{Action}
use supermq.Service.Laws.{Ends}
use supermq.Policies.{Policy, Relationship, listed, filter_matches, PolicyStore}

module _ {W : Type 0} (holds : W → Relationship → Bool) where
  abbrev pub Same : W → W → Type 0
  Same w w' = (r : Relationship) → holds w' r ≡ holds w r

  -- The policies were not there, and are now.
  abbrev pub Adds : List Policy → W → W → Type 0
  Adds prs w w' =
      ((r : Relationship) → listed prs r ≡ true → holds w r ≡ false)
      × ((r : Relationship) → holds w' r ≡ (listed prs r || holds w r))

  abbrev pub Deletes : List Policy → W → W → Type 0
  Deletes prs w w' = (r : Relationship) → holds w' r ≡ (not (listed prs r) && holds w r)

  abbrev pub Filters : Policy → W → W → Type 0
  Filters f w w' = (r : Relationship) → holds w' r ≡ (not (filter_matches f r) && holds w r)

  -- The writes do what they say, or end in an error and do nothing.
  pub record Implements (add delete : List Policy → Action W (Unit {0}))
      (delete_filter : Policy → Action W (Unit {0})) : Type 0 where
    pub adds : (prs : List Policy) (w : W) → Ends (λ _. Adds prs w) (λ _. Same w) (add prs w)
    pub deletes :
        (prs : List Policy) (w : W) → Ends (λ _. Deletes prs w) (λ _. Same w) (delete prs w)
    pub filters : (f : Policy) (w : W) → Ends (λ _. Filters f w) (λ _. Same w) (delete_filter f w)

pub ends_ok :
    {W : Type 0} (G : W → Type 0) (F : W → Type 0) (end : Result (Unit {0}) × W)
    → Ends (λ _. G) (λ _. F) end
    → end.0 ≡ ok tt
    → G end.1
ends_ok G F (ok _, w) h e = h
ends_ok G F (err _, w) h e = cc

pub ends_err :
    {W : Type 0} (G : W → Type 0) (F : W → Type 0) (end : Result (Unit {0}) × W) (x : Err)
    → Ends (λ _. G) (λ _. F) end
    → end.0 ≡ err x
    → F end.1
ends_err G F (ok _, w) x h e = cc
ends_err G F (err _, w) x h e = h

-- An implementation is a policy store.
abbrev pub implementation :
    {W : Type 0} (holds : W → Relationship → Bool) (add delete : List Policy → Action W (Unit {0}))
    (delete_filter : Policy → Action W (Unit {0}))
    → Implements holds add delete delete_filter
    → PolicyStore W
implementation holds add delete delete_filter i = record {
  holds = holds;
  add = add;
  delete = delete;
  delete_filter = delete_filter;
  add_creates =
      λ ps w r h l. (ends_ok (Adds holds ps w) (Same holds w) (add ps w) (i.adds ps w) h).0 r l;
  add_adds = λ ps w r h. (ends_ok (Adds holds ps w) (Same holds w) (add ps w) (i.adds ps w) h).1 r;
  add_fails =
      λ ps w r e h. ends_err (Adds holds ps w) (Same holds w) (add ps w) e (i.adds ps w) h r;
  delete_deletes =
      λ ps w r h. ends_ok (Deletes holds ps w) (Same holds w) (delete ps w) (i.deletes ps w) h r;
  delete_fails = λ ps w r e h.
      ends_err (Deletes holds ps w) (Same holds w) (delete ps w) e (i.deletes ps w) h r;
  filter_deletes =
      λ f w r h. ends_ok (Filters holds f w) (Same holds w) (delete_filter f w) (i.filters f w) h r;
  filter_fails = λ f w r e h.
      ends_err (Filters holds f w) (Same holds w) (delete_filter f w) e (i.filters f w) h r;
}

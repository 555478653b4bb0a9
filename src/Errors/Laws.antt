-- ===== src/Errors/Laws.antt =====
-- What wrapping keeps of the errors that it joins (pkg/errors).
use text.Mathlib.Text.{◌==◌}
use supermq.Common.{
  String, ◌≡◌, refl, sym, ap, ◌∙◌, Bool, true, false, ◌||◌, Option, none, some, arith,
  if◌then◌else◌,
}
use supermq.Errors.{
  Kind, Err, nil, foreign, plain, typed, new, is_nestable, is_nil, cast, contains, error_text,
  flatten_wrap, wrap_plain, wrap,
}

-- `Embed` and `Wrap` as error_types.go and errors.go write them, over a function for the calls of
-- `Wrap` in them.
abbrev pub embed_body : (Err → Err → Err) → Err → Err → Err
embed_body rec (typed k m e) err = typed k m (rec err e)
embed_body rec e err = e

abbrev pub wrap_body : (Err → Err → Err) → Err → Err → Err
wrap_body rec w e =
    if is_nil w || is_nil e
    then w
    else if is_nestable e
    then embed_body rec e w
    else if is_nestable w
    then embed_body rec w e
    else flatten_wrap w e

wrap_plain-eq-wrap :
    (w e : Err) → is_nil w ≡ false → is_nestable w ≡ false → wrap_plain w e ≡ wrap w e
unfolding wrap
wrap_plain-eq-wrap (foreign m) (typed k m' e) h n =
    ap (typed k m') (wrap_plain-eq-wrap (foreign m) e h n)
wrap_plain-eq-wrap (plain m i) (typed k m' e) h n =
    ap (typed k m') (wrap_plain-eq-wrap (plain m i) e h n)
wrap_plain-eq-wrap nil e h n = ground arith
wrap_plain-eq-wrap (typed k m i) e h n = ground arith
wrap_plain-eq-wrap (foreign m) nil h n = refl
wrap_plain-eq-wrap (foreign m) _ h n = refl
wrap_plain-eq-wrap (plain m i) nil h n = refl
wrap_plain-eq-wrap (plain m i) _ h n = refl

-- `wrap` solves the recursive equation of the source, for every wrapper and every error: a nesting
-- error keeps its type and its message outside, and takes the wrapper in.
pub wrap-unfolds : (w e : Err) → wrap w e ≡ wrap_body wrap w e
unfolding wrap
wrap-unfolds nil e = refl
wrap-unfolds (foreign m) nil = refl
wrap-unfolds (foreign m) e = refl
wrap-unfolds (plain m i) nil = refl
wrap-unfolds (plain m i) e = refl
wrap-unfolds (typed k m i) nil = refl
wrap-unfolds (typed k m i) (foreign m') =
    ap (typed k m) (wrap_plain-eq-wrap (foreign m') i refl refl)
wrap-unfolds (typed k m i) (plain m' e) =
    ap (typed k m) (wrap_plain-eq-wrap (plain m' e) i refl refl)
wrap-unfolds (typed k m i) (typed k' m' e) = refl

or_swap : (a b c : Bool) → (b || (a || c)) ≡ (a || (b || c))
or_swap true true c = refl
or_swap true false c = refl
or_swap false b c = refl

or_false : (a : Bool) → (a || false) ≡ a
or_false true = refl
or_false false = refl

-- An error with a message of its own contains the text of that message.
contains-plain :
    (m : String) (e target : Err)
    → is_nil target ≡ false
    → contains (plain m e) target ≡ (m == error_text target || contains e target)
unfolding contains
contains-plain m e nil h = ground arith
contains-plain m e (foreign s) h = refl
contains-plain m e _ h = refl

contains-typed :
    (k : Kind) (m : String) (e target : Err)
    → is_nil target ≡ false
    → contains (typed k m e) target ≡ (m == error_text target || contains e target)
unfolding contains
contains-typed k m e nil h = ground arith
contains-typed k m e (foreign s) h = refl
contains-typed k m e _ h = refl

contains-nil : (target : Err) → is_nil target ≡ false → contains nil target ≡ false
unfolding contains
contains-nil target h = h

contains-cast :
    (e target : Err) → is_nil target ≡ false → contains (cast e) target ≡ contains e target
unfolding cast contains
contains-cast (foreign m) nil h = ground arith
contains-cast (foreign m) (foreign s) h = or_false _
contains-cast (foreign m) _ h = or_false _
contains-cast nil target h = refl
contains-cast _ target h = refl

contains-new :
    (k : Option Kind) (m : String) (target : Err)
    → is_nil target ≡ false
    → contains (new k m) target ≡ (m == error_text target || contains nil target)
contains-new none m target h = contains-plain m nil target h
contains-new (some k) m target h = contains-typed k m nil target h

contains-wrap_typed :
    (w : Err) (k : Kind) (m : String) (e target : Err) (b : Bool)
    → is_nil target ≡ false
    → contains (wrap w e) target ≡ (b || contains e target)
    → contains (typed k m (wrap w e)) target ≡ (b || contains (typed k m e) target)
contains-wrap_typed w k m e target b h ih =
    contains-typed k m (wrap w e) target h
    ∙ ap (λ c. m == error_text target || c) ih
    ∙ or_swap b (m == error_text target) (contains e target)
    ∙ ap (λ c. b || c) (sym (contains-typed k m e target h))

-- Wrapping by an error made by `New…` adds its message to the chain: the result contains a target exactly if the target's text is that message or the wrapped error contains
-- it. The target may not be nil.
pub contains-wrap :
    (k : Option Kind) (m : String) (e target : Err)
    → is_nil target ≡ false
    → contains (wrap (new k m) e) target ≡ (m == error_text target || contains e target)
unfolding wrap error_text
contains-wrap none m nil target h = contains-plain m nil target h
contains-wrap (some k) m nil target h = contains-typed k m nil target h
contains-wrap none m (typed k' m' e) target h =
    contains-wrap_typed (new none m) k' m' e target _ h (contains-wrap none m e target h)
contains-wrap (some k) m (typed k' m' e) target h =
    contains-wrap_typed (new (some k) m) k' m' e target _ h (contains-wrap (some k) m e target h)
contains-wrap none m e target h =
    contains-plain m (cast e) target h
    ∙ ap (λ c. m == error_text target || c) (contains-cast e target h)
contains-wrap (some k) m e target h = contains-typed k m e target h

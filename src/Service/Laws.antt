-- ===== src/Service/Laws.antt =====
-- Reasoning about sequences of calls: what they keep of the world, and how they end.
use supermq.Common.{Bool, refl, ◌≡◌, ◌∙◌}
use supermq.Errors.{Err, Result, ok, err}
use supermq.Service.{Action, ◌>>=◌, or_wrap, pure, fail_if, undoing}

-- The call leaves a view of the world as it was.
abbrev pub Keeps : {W A V : Type 0} → (W → V) → Action W A → Type 0
Keeps {W} view m = (w : W) → view (m w).1 ≡ view w

-- What holds of the way a call ends: of the value and the world, or of the error and the world.
abbrev pub Ends : {W A : Type 0} → (A → W → Type 0) → (Err → W → Type 0) → Result A × W → Type 0
Ends good bad (ok a, w) = good a w
Ends good bad (err e, w) = bad e w

module _ {W V : Type 0} (view : W → V) where
  bind_kept :
      {A B : Type 0} (end : Result A × W) (f : A → Action W B) (w : W)
      → view end.1 ≡ view w
      → ((a : A) → Keeps view (f a))
      → view (((λ _. end) >>= f) w).1 ≡ view w
  bind_kept (err e, w') f w h k = h
  bind_kept (ok a, w') f w h k = k a w' ∙ h

  pub >>=-Keeps :
      {A B : Type 0} (m : Action W A) (f : A → Action W B)
      → Keeps view m
      → ((a : A) → Keeps view (f a))
      → Keeps view (m >>= f)
  >>=-Keeps m f h k w = bind_kept (m w) f w (h w) k

  pub or_wrap-Keeps :
      {A : Type 0} (e : Err) (m : Action W A) → Keeps view m → Keeps view (or_wrap e m)
  or_wrap-Keeps e m h w = h w

  pub pure-Keeps : {A : Type 0} (a : A) → Keeps view (pure a)
  pure-Keeps a w = refl

  pub fail_if-Keeps : (test : Bool) (e : Err) → Keeps view (fail_if test e)
  fail_if-Keeps test e w = refl

  undone_kept :
      {A : Type 0} (end : Result A × W) (undo : Action W (Unit {0})) (e : Err) (w : W)
      → view end.1 ≡ view w
      → Keeps view undo
      → view (undoing undo e (λ _. end) w).1 ≡ view w
  undone_kept (ok a, w1) undo e w h k = h
  undone_kept (err _, w1) undo e w h k = k w1 ∙ h

  pub undoing-Keeps :
      {A : Type 0} (undo : Action W (Unit {0})) (e : Err) (rest : Action W A)
      → Keeps view undo
      → Keeps view rest
      → Keeps view (undoing undo e rest)
  undoing-Keeps undo e rest k h w = undone_kept (rest w) undo e w (h w) k

-- What the value satisfies, if there is one.
abbrev pub Returns : {W A : Type 0} → (A → Type 0) → Result A × W → Type 0
Returns P end = Ends (λ a _. P a) (λ _ _. Unit) end

pub >>=-Returns :
    {W A B : Type 0} (P : A → Type 0) (Q : B → Type 0) (end : Result A × W) (f : A → Action W B)
    (w : W)
    → Returns P end
    → ((a : A) (w1 : W) → P a → Returns Q (f a w1))
    → Returns Q (((λ _. end) >>= f) w)
>>=-Returns P Q (ok a, w1) f w h k = k a w1 h
>>=-Returns P Q (err e, w1) f w h k = tt

-- A sequence of two calls: the ends of the second hold after a first that returned, and of an
-- error of the first.
pub >>=-Ends :
    {W A B : Type 0} (G : A → W → Type 0) (F : Err → W → Type 0) (good : B → W → Type 0)
    (bad : Err → W → Type 0) (end : Result A × W) (f : A → Action W B) (w : W)
    → Ends G F end
    → ((a : A) (w1 : W) → G a w1 → Ends good bad (f a w1))
    → ((e : Err) (w1 : W) → F e w1 → bad e w1)
    → Ends good bad (((λ _. end) >>= f) w)
>>=-Ends G F good bad (ok a, w1) f w h k l = k a w1 h
>>=-Ends G F good bad (err e, w1) f w h k l = l e w1 h

pub Ends-weaken :
    {W A : Type 0} (G good : A → W → Type 0) (F bad : Err → W → Type 0) (end : Result A × W)
    → Ends G F end
    → ((a : A) (w1 : W) → G a w1 → good a w1)
    → ((e : Err) (w1 : W) → F e w1 → bad e w1)
    → Ends good bad end
Ends-weaken G good F bad (ok a, w1) h k l = k a w1 h
Ends-weaken G good F bad (err e, w1) h k l = l e w1 h

-- What holds of the world afterwards, with or without an error.
pub >>=-after :
    {W A B : Type 0} (I : W → Type 0) (end : Result A × W) (f : A → Action W B) (w : W)
    → I end.1
    → ((a : A) (w1 : W) → end ≡ (ok a, w1) → I (f a w1).1)
    → I (((λ _. end) >>= f) w).1
>>=-after I (ok a, w1) f w h k = k a w1 refl
>>=-after I (err e, w1) f w h k = h

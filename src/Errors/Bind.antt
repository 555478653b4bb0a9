-- ===== src/Errors/Bind.antt =====
-- Inversion of the steps of a chain of results.
use supermq.Common.{◌≡◌, refl}
use supermq.Errors.{Err, Result, ok, err, ◌>>=◌, wrapping}

-- What succeeded as a whole succeeded in its first step, and from there on.
pub >>=-eq-ok :
    {A B : Type 0} (first : Result A) (rest : A → Result B) {y : B}
    → (first >>= rest) ≡ ok y
    → (x : A) × (first ≡ ok x) × (rest x ≡ ok y)
>>=-eq-ok (err e) rest whole = cc
>>=-eq-ok (ok x) rest whole = (x, refl, whole)

-- The same where the error of the first step is wrapped.
pub wrapping->>=-eq-ok :
    {A B : Type 0} (w : Err) (first : Result A) (rest : A → Result B) {y : B}
    → (wrapping w first >>= rest) ≡ ok y
    → (x : A) × (first ≡ ok x) × (rest x ≡ ok y)
wrapping->>=-eq-ok w (err e) rest whole = cc
wrapping->>=-eq-ok w (ok x) rest whole = (x, refl, whole)

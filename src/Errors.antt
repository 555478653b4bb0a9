-- ===== src/Errors.antt =====
-- The error chains of pkg/errors (errors.go, error_types.go) and the results that carry them.
-- Go's `error` is `Err`: `nil` is the nil interface, `foreign` an error of another package with
-- its text, which wraps no other and has no method Is; errors that wrap by %w or errors.Join, which
-- only errors.Is takes apart, are not modelled. `plain` is a `*customError`, and `typed` one of the seven types that embed it and nest;
-- the last two hold a message and the error that they wrap.
pub mod Bind
pub mod Laws
use supermq.Common.{String, Bool, true, false, ◌||◌, Option, none, some}
use Prim.Native.String.{◌++◌}
use text.Mathlib.Text.{◌==◌}

pub data Kind : Type 0 where
  request authn authz internal service media_type not_found : Kind

pub data Err : Type 0 where
  nil : Err
  foreign : String → Err
  plain : String → Err → Err
  typed : Kind → String → Err → Err

-- `New` (no kind), and `NewRequestError`, `NewServiceError` and the like.
abbrev pub new : Option Kind → String → Err
new none m = plain m nil
new (some k) m = typed k m nil

-- The `isNestable` marker.
abbrev pub is_nestable : Err → Bool
is_nestable (typed k m e) = true
is_nestable _ = false

abbrev pub is_nil : Err → Bool
is_nil nil = true
is_nil _ = false

abbrev pub join_text : String → Err → String → String
join_text m nil rest = m
join_text m _ rest = m ++ " : " ++ rest

-- `Error()`
unfoldable pub error_text : Err → String
error_text nil = ""
error_text (foreign m) = m
error_text (plain m e) = join_text m e (error_text e)
error_text (typed k m e) = join_text m e (error_text e)

-- `Contains`. For an error that wraps no other, `errors.Is` compares two pointers, and equal ones
-- have equal texts, so that only the texts are left to compare.
unfoldable pub contains : Err → Err → Bool
contains nil e2 = is_nil e2
contains (foreign m) nil = false
contains (foreign m) e2 = m == error_text e2
contains (plain m e) nil = false
contains (plain m e) e2 = m == error_text e2 || contains e e2
contains (typed k m e) nil = false
contains (typed k m e) e2 = m == error_text e2 || contains e e2

unfoldable pub cast : Err → Err
cast (foreign m) = plain m nil
cast e = e

-- The last statement of `Wrap`, for two errors that do not nest.
abbrev pub flatten_wrap : Err → Err → Err
flatten_wrap w e = plain (error_text w) (cast e)

-- `Wrap` with a non-nil wrapper that does not nest.
unfoldable pub wrap_plain : Err → Err → Err
unfolding error_text cast
wrap_plain w nil = w
wrap_plain w (typed k m e) = typed k m (wrap_plain w e)
wrap_plain w e = flatten_wrap w e

-- The branches of `Wrap` for a non-nil error that does not nest. The wrapper's own `Embed` turns
-- the two sides round, which happens once: from there on the wrapper does not nest.
abbrev pub wrap_by : Err → Err → Err
wrap_by nil e = nil
wrap_by (typed k m inner) e = typed k m (wrap_plain e inner)
wrap_by w e = flatten_wrap w e

-- `Wrap(wrapper, err)`
unfoldable pub wrap : Err → Err → Err
unfolding wrap_plain
wrap nil e = nil
wrap w nil = w
wrap w (typed k m e) = typed k m (wrap w e)
wrap w e = wrap_by w e

-- What a call returns: a value with a nil error, or an error.
pub data Result (A : Type 0) : Type 0 where
  ok : A → Result A
  err : Err → Result A

-- `x, err := f(); if err != nil { return err }`, and the rest of the function.
infixl 5 ◌>>=◌
abbrev pub ◌>>=◌ : {A B : Type 0} → Result A → (A → Result B) → Result B
◌>>=◌ first rest = elim first [ err e ↦ err e | ok x ↦ rest x ]

-- `if err != nil { return errors.Wrap(w, err) }`
abbrev pub wrapping : {A : Type 0} → Err → Result A → Result A
wrapping w (ok a) = ok a
wrapping w (err e) = err (wrap w e)

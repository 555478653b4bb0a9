-- ===== src/Messaging/Subtopic/Space.antt =====
-- Printable ASCII text passes TrimSpace and QueryUnescape unchanged.
use mathlib.Core.List.{reverse-cons, reverse-reverse}
use supermq.Common.{
  ℕ, ◌≤◌, ◌<◌, ◌≡◌, refl, ◌⊎◌, none, List, [], ◌∷◌, reverse, map, arith, All, All-append,
}
use supermq.Errors.{ok}
use supermq.Messaging.Bytes.{
  Bytes, Lacks, spaces, strip_one, strip_any, strip_all, trim_left, trim_space,
}
use supermq.Messaging.Subtopic.{query_unescape}

abbrev pub IsPrintable : ℕ → Type 0
IsPrintable b = (0x20 < b) × (b < 0x7f)

-- The pattern begins with a byte that is not printable.
abbrev pub StartsOutside : Bytes → Type 0
StartsOutside [] = ⊥
StartsOutside (p ∷ ps) = (p ≤ 0x20) ⊎ (0x7f < p)

pub All-reverse {ℓ κ} : {A : Type ℓ} (P : A → Type κ) (xs : List A) → All P xs → All P (reverse xs)
All-reverse P [] h = h
All-reverse P (x ∷ xs) h =
    rw reverse-cons (All-append P (reverse xs) (x ∷ []) (All-reverse P xs h.1) (h.0, tt))

strip_one-IsPrintable :
    (p : Bytes) (b : ℕ) (s : Bytes) → StartsOutside p → IsPrintable b → strip_one p (b ∷ s) ≡ none
unfolding strip_one
strip_one-IsPrintable (p ∷ ps) b s h g = ground arith
strip_one-IsPrintable [] b s h g = absurd h

strip_any-IsPrintable :
    (pats : List Bytes) (b : ℕ) (s : Bytes)
    → All StartsOutside pats
    → IsPrintable b
    → strip_any pats (b ∷ s) ≡ none
unfolding strip_any
strip_any-IsPrintable [] b s h g = refl
strip_any-IsPrintable (p ∷ ps) b s h g =
    rw (strip_one-IsPrintable p b s h.0 g, strip_any) (strip_any-IsPrintable ps b s h.1 g)

trim_left-IsPrintable :
    (pats : List Bytes) (s : Bytes)
    → All StartsOutside pats
    → All IsPrintable s
    → trim_left pats s ≡ s
unfolding trim_left strip_all
trim_left-IsPrintable pats [] h g = refl
trim_left-IsPrintable pats (b ∷ s) h g = rw (strip_any-IsPrintable pats b s h g.0, strip_all)

pub trim_space-IsPrintable : (s : Bytes) → All IsPrintable s → trim_space s ≡ s
unfolding trim_space
trim_space-IsPrintable s h = rw (trim_left-IsPrintable spaces s (omega arith) h) (
    rw
      (trim_left-IsPrintable (map reverse spaces) (reverse s) (omega arith)
        (All-reverse IsPrintable s h))
      (reverse-reverse s))

pub query_unescape-Lacks : (s : Bytes) → Lacks b'%' s → Lacks b'+' s → query_unescape s ≡ ok s
unfolding query_unescape
query_unescape-Lacks [] h g = refl
query_unescape-Lacks (a ∷ []) h g = ground arith
query_unescape-Lacks (a ∷ x ∷ []) h g = ground arith
query_unescape-Lacks (a ∷ x ∷ y ∷ s) h g = ground (arith, query_unescape-Lacks (x ∷ y ∷ s) h.1 g.1)

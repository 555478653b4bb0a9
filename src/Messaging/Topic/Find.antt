-- ===== src/Messaging/Topic/Find.antt =====
-- The two index loops of ParseTopic find the first occurrence.
use supermq.Common.{ℕ, zero, suc, ◌≡◌, refl, none, some, [], ◌∷◌, ◌++◌, arith, length, take, drop}
use supermq.Messaging.Bytes.{Bytes, Lacks}
use supermq.Messaging.Topic.{marker, find_marker, find_slash}

-- "/c/" stands at the head.
abbrev pub StartsMarker : Bytes → Type 0
StartsMarker (a ∷ b ∷ c ∷ s) = (a ≡ b'/') × (b ≡ b'c') × (c ≡ b'/')
StartsMarker _ = ⊥

-- "/c/" stands nowhere.
abbrev pub LacksMarker : Bytes → Type 0
LacksMarker [] = Unit
LacksMarker (a ∷ s) = ¬ (StartsMarker (a ∷ s)) × LacksMarker s

-- "/c", the part of the marker that may overlap with the domain
abbrev pub half_marker : Bytes
half_marker = b'/' ∷ b'c' ∷ []

pub find_slash-append : (c s : Bytes) → Lacks b'/' c → find_slash (c ++ b'/' ∷ s) ≡ some (length c)
unfolding find_slash
find_slash-append [] s h = refl
find_slash-append (b ∷ c) s h = ground (arith, find_slash-append c s h.1)

pub find_slash-Lacks : (c : Bytes) → Lacks b'/' c → find_slash c ≡ none
unfolding find_slash
find_slash-Lacks [] h = refl
find_slash-Lacks (b ∷ c) h = ground (arith, find_slash-Lacks c h.1)

pub find_slash-none : (c : Bytes) → find_slash c ≡ none → Lacks b'/' c
unfolding find_slash
find_slash-none [] h = tt
find_slash-none (b ∷ c) h = ground (arith, find_slash-none c)

pub find_slash-some :
    (s : Bytes) (i : ℕ)
    → find_slash s ≡ some i
    → Lacks b'/' (take i s) × (s ≡ take i s ++ b'/' ∷ drop 1 (drop i s))
unfolding find_slash
find_slash-some [] i h = cc
find_slash-some (b ∷ s) zero h = ground arith
find_slash-some (b ∷ s) (suc i) h = ground (arith, find_slash-some s i)

pub find_marker-append :
    (d s : Bytes)
    → LacksMarker (d ++ half_marker)
    → find_marker (d ++ (marker ++ s)) ≡ some (length d)
unfolding find_marker
find_marker-append [] s h = refl
find_marker-append (a ∷ []) s h = ground arith
find_marker-append (a ∷ b ∷ []) s h = ground (arith, find_marker-append (b ∷ []) s h.1)
find_marker-append (a ∷ b ∷ c ∷ d) s h = ground (arith, find_marker-append (b ∷ c ∷ d) s h.1)

pub find_marker-some :
    (s : Bytes) (i : ℕ)
    → find_marker s ≡ some i
    → LacksMarker (take i s ++ half_marker) × (s ≡ take i s ++ (marker ++ drop 3 (drop i s)))
unfolding find_marker
find_marker-some (a ∷ b ∷ c ∷ s) zero h = ground arith
find_marker-some (a ∷ b ∷ c ∷ s) (suc zero) h = ground (arith, find_marker-some (b ∷ c ∷ s) 0)
find_marker-some (a ∷ b ∷ c ∷ s) (suc (suc zero)) h = ground (arith, find_marker-some (b ∷ c ∷ s) 1)
find_marker-some (a ∷ b ∷ c ∷ s) (suc (suc (suc i))) h =
    ground (arith, find_marker-some (b ∷ c ∷ s) (suc (suc i)))
find_marker-some _ i h = cc

-- ===== src/Messaging/Subtopic/Laws.antt =====
-- What a subtopic accepted for publishing or for subscribing looks like.
use supermq.Common.{
  ℕ, ◌≡◌, ◌≢◌, ◌↔◌, refl, ◌⊎◌, inl, inr, false, List, [], ◌∷◌, ◌++◌, map, arith, All, length, ◌≤◌,
  Bool-cases,
}
use supermq.Errors.{Result, ok, err, ◌>>=◌}
use supermq.Errors.Bind.{wrapping->>=-eq-ok}
use mathlib.Core.Path.{subst}
use supermq.Messaging.Bytes.{Bytes, Lacks, has_byte, contains_any, has_dots, split, replace_byte}
use supermq.Messaging.Subtopic.{
  wildcards, subtopic_invalid_chars, query_unescape, trim_subtopic, format_subtopic, check_publish,
  parse_publish_subtopic, bad_level, check_subscribe, rewrite_wildcards, parse_subscribe_subtopic,
}

-- No two dots stand side by side: no level inside the subtopic is empty.
abbrev pub LacksDots : Bytes → Type 0
LacksDots (a ∷ b ∷ s) = ¬ ((a ≡ b'.') × (b ≡ b'.')) × LacksDots (b ∷ s)
LacksDots _ = Unit

-- A byte that no accepted subtopic holds.
abbrev pub IsAllowed : ℕ → Type 0
IsAllowed b = (b ≢ b' ') × (b ≢ b'#') × (b ≢ b'+') × (b ≢ b'/')

abbrev pub IsLiteral : ℕ → Type 0
IsLiteral b = (b ≢ b'*') × (b ≢ b'>')

-- A level is one byte at most, such as a wildcard, or holds no wildcard.
abbrev pub IsLevel : Bytes → Type 0
IsLevel e = (length e ≤ 1) ⊎ All IsLiteral e

pub has_dots_iff : (s : Bytes) → (has_dots s ≡ false) ↔ LacksDots s
unfolding has_dots
has_dots_iff [] = ground arith
has_dots_iff (a ∷ []) = ground arith
has_dots_iff (a ∷ b ∷ s) = ground (arith, has_dots_iff (b ∷ s))

pub contains_any-invalid :
    (s : Bytes) → contains_any s subtopic_invalid_chars ≡ false → Lacks b'/' s → All IsAllowed s
unfolding contains_any has_byte
contains_any-invalid [] h g = tt
contains_any-invalid (b ∷ s) h g = ground (arith, contains_any-invalid s)

pub contains_any-publish :
    (s : Bytes)
    → contains_any s (subtopic_invalid_chars ++ wildcards) ≡ false
    → (contains_any s subtopic_invalid_chars ≡ false) × All IsLiteral s
unfolding contains_any has_byte
contains_any-publish [] h = (refl, tt)
contains_any-publish (b ∷ s) h = ground (arith, contains_any-publish s)

pub contains_any-wildcards : (s : Bytes) → (contains_any s wildcards ≡ false) ↔ All IsLiteral s
unfolding contains_any has_byte
contains_any-wildcards [] = ground arith
contains_any-wildcards (b ∷ s) = ground (arith, contains_any-wildcards s)

Lacks-replace : (s : Bytes) → Lacks b'/' (map (replace_byte b'/' b'.') s)
Lacks-replace [] = tt
Lacks-replace (b ∷ s) = ground (arith, Lacks-replace s)

trim_subtopic-Lacks : (s : Bytes) → Lacks b'/' (trim_subtopic s)
unfolding trim_subtopic
trim_subtopic-Lacks s = Lacks-replace _

trimmed-Lacks :
    (r : Result Bytes) (t : Bytes) → (r >>= λ d. ok (trim_subtopic d)) ≡ ok t → Lacks b'/' t
trimmed-Lacks (ok d) t h =
    let e : trim_subtopic d ≡ t = cc in subst (Lacks b'/') e (trim_subtopic-Lacks d)
trimmed-Lacks (err e) t h = cc

format_subtopic-Lacks : (s t : Bytes) → format_subtopic s ≡ ok t → Lacks b'/' t
unfolding format_subtopic
format_subtopic-Lacks s t h = trimmed-Lacks (query_unescape s) t h

pub check_publish-ok :
    (s t : Bytes)
    → check_publish s ≡ ok t
    → (s ≡ t)
      × (contains_any s (subtopic_invalid_chars ++ wildcards) ≡ false)
      × (has_dots s ≡ false)
unfolding check_publish
check_publish-ok s t h = ground arith

check_subscribe-ok :
    (s t : Bytes)
    → check_subscribe s ≡ ok t
    → (s ≡ t)
      × (contains_any s subtopic_invalid_chars ≡ false)
      × (has_dots s ≡ false)
      × (bad_level (split b'.' s) ≡ false)
unfolding check_subscribe
check_subscribe-ok s t h = ground arith

bad_level-IsLevel : (es : List Bytes) → bad_level es ≡ false → All IsLevel es
unfolding bad_level
bad_level-IsLevel [] h = tt
bad_level-IsLevel (e ∷ es) h = elim (Bool-cases (contains_any e wildcards)) [
  | inl some_wildcard ↦ (inl (grind arith), bad_level-IsLevel es (grind arith))
  | inr none_at_all ↦
      (inr ((contains_any-wildcards e).0 none_at_all), bad_level-IsLevel es (grind arith))
]

-- What a published subtopic may hold once it is accepted: no space, no '#', '+' or '/', no
-- wildcard of the broker, and no two dots side by side.
pub record IsPublishable (t : Bytes) : Type 0 where
  pub allowed : All IsAllowed t
  pub literal : All IsLiteral t
  pub levels : LacksDots t

-- Every subtopic that ParsePublishSubtopic returns is publishable: whatever the client sent, also
-- in percent escapes, no wildcard reaches the broker in a message's subject.
pub parse_publish_subtopic-IsPublishable :
    (s t : Bytes) → parse_publish_subtopic s ≡ ok t → IsPublishable t
unfolding parse_publish_subtopic
parse_publish_subtopic-IsPublishable [] t h =
    let e : [] ≡ t = cc in
    subst IsPublishable e (record { allowed = tt; literal = tt; levels = tt })
parse_publish_subtopic-IsPublishable (b ∷ s) t h =
    let (a, formatted, checked) = wrapping->>=-eq-ok _ (format_subtopic (b ∷ s)) check_publish h in
    let (same, chars, dots) = check_publish-ok a t checked in
    let (invalid, plain) = contains_any-publish a chars in
    subst IsPublishable same (record {
      allowed = contains_any-invalid a invalid (format_subtopic-Lacks (b ∷ s) a formatted);
      literal = plain;
      levels = (has_dots_iff a).0 dots;
    })

-- What a subscription may hold once it is accepted: no space, no '#', '+' or '/', no two dots side
-- by side, and a wildcard only as a whole level.
pub record IsSubscribable (t : Bytes) : Type 0 where
  pub allowed : All IsAllowed t
  pub levels : LacksDots t
  pub wildcards_alone : All IsLevel (split b'.' t)

-- Every subtopic that ParseSubscribeSubtopic returns is subscribable.
pub parse_subscribe_subtopic-IsSubscribable :
    (s t : Bytes) → parse_subscribe_subtopic s ≡ ok t → IsSubscribable t
unfolding parse_subscribe_subtopic
parse_subscribe_subtopic-IsSubscribable [] t h =
    let e : [] ≡ t = cc in
    subst IsSubscribable e
      (record { allowed = tt; levels = tt; wildcards_alone = (inl (omega arith), tt) })
parse_subscribe_subtopic-IsSubscribable (b ∷ s) t h =
    let (a, formatted, checked) =
      wrapping->>=-eq-ok _ (format_subtopic (rewrite_wildcards (b ∷ s))) check_subscribe h in
    let (same, chars, dots, bad) = check_subscribe-ok a t checked in
    subst IsSubscribable same (record {
      allowed =
          contains_any-invalid a chars
            (format_subtopic-Lacks (rewrite_wildcards (b ∷ s)) a formatted);
      levels = (has_dots_iff a).0 dots;
      wildcards_alone = bad_level-IsLevel (split b'.' a) bad;
    })

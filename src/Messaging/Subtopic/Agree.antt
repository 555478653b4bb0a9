-- ===== src/Messaging/Subtopic/Agree.antt =====
-- A subtopic that can be published can be subscribed to, under the same name.
use supermq.Common.{ℕ, ◌≡◌, refl, ap, false, List, [], ◌∷◌, All, ◌==◌, arith, inl, inr, Bool-cases}
use supermq.Errors.{ok}
use supermq.Errors.Bind.{wrapping->>=-eq-ok}
use supermq.Messaging.Bytes.{Bytes, Lacks, has_byte, contains_any, split, push_head}
use supermq.Messaging.Subtopic.{
  mq_wildcards, format_subtopic, check_publish, check_subscribe, bad_level, parse_publish_subtopic,
  rewrite_wildcards, parse_subscribe_subtopic, malformed_subtopic,
}
use supermq.Messaging.Subtopic.Laws.{
  IsLiteral, contains_any-publish, contains_any-wildcards, check_publish-ok,
}

push_head-All :
    (P : ℕ → Type 0) (b : ℕ) (es : List Bytes) → P b → All (All P) es → All (All P) (push_head b es)
push_head-All P b [] h g = ((h, tt), tt)
push_head-All P b (e ∷ es) h g = ((h, g.0), g.1)

split-All : (P : ℕ → Type 0) (sep : ℕ) (s : Bytes) → All P s → All (All P) (split sep s)
unfolding split
split-All P sep [] h = (tt, tt)
split-All P sep (b ∷ s) h = elim (Bool-cases (b == sep)) [
  | inl e ↦ rw e (tt, split-All P sep s h.1)
  | inr e ↦ rw e (push_head-All P b (split sep s) h.0 (split-All P sep s h.1))
]

bad_level-literal : (es : List Bytes) → All (All IsLiteral) es → bad_level es ≡ false
unfolding bad_level
bad_level-literal [] h = refl
bad_level-literal (e ∷ es) h =
    ground (arith, (contains_any-wildcards e).1 h.0, bad_level-literal es h.1)

contains_any-mq_wildcards :
    (s : Bytes) → Lacks b'+' s → Lacks b'#' s → contains_any s mq_wildcards ≡ false
unfolding contains_any has_byte
contains_any-mq_wildcards [] h g = refl
contains_any-mq_wildcards (b ∷ s) h g = ground (arith, contains_any-mq_wildcards s h.1 g.1)

rewrite_wildcards-Lacks : (s : Bytes) → Lacks b'+' s → Lacks b'#' s → rewrite_wildcards s ≡ s
unfolding rewrite_wildcards
rewrite_wildcards-Lacks s h g = rw (contains_any-mq_wildcards s h g)

check_subscribe-publish : (s t : Bytes) → check_publish s ≡ ok t → check_subscribe s ≡ ok t
unfolding check_subscribe
check_subscribe-publish s t h =
    let (same, chars, dots) = check_publish-ok s t h in
    let (invalid, literal) = contains_any-publish s chars in
    rw (invalid, dots, bad_level-literal (split b'.' s) (split-All IsLiteral b'.' s literal))
      (ap ok same)

-- A subtopic that is accepted for publishing is accepted for subscribing, and formatted in the
-- same way, so the subscription names the subject of the message. The raw text must hold neither
-- '+' nor '#': the subscriber's side reads those as wildcards before it decodes.
pub parse_subscribe_subtopic-publish :
    (s t : Bytes)
    → Lacks b'+' s
    → Lacks b'#' s
    → parse_publish_subtopic s ≡ ok t
    → parse_subscribe_subtopic s ≡ ok t
unfolding parse_publish_subtopic parse_subscribe_subtopic
parse_subscribe_subtopic-publish [] t h g e = e
parse_subscribe_subtopic-publish (b ∷ s) t h g e =
    let (a, formatted, checked) =
      wrapping->>=-eq-ok malformed_subtopic (format_subtopic (b ∷ s)) check_publish e in
    rw (rewrite_wildcards-Lacks (b ∷ s) h g, formatted) (check_subscribe-publish a t checked)

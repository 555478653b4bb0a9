-- ===== src/Messaging/Subtopic/Parts.antt =====
-- What ParsePublishTopic keeps of the parts of the topic, and how it fails.
use supermq.Common.{◌≡◌, ◌≢◌, refl, ap, ◌∙◌, sym, false, [], inl, inr, arith}
use mathlib.Core.Path.{subst}
use supermq.Errors.{Err, nil, foreign, plain, typed, Result, ok, err, wrap, is_nil, ◌>>=◌, wrapping}
use supermq.Errors.Bind.{>>=-eq-ok, wrapping->>=-eq-ok}
use supermq.Messaging.Bytes.{Bytes}
use supermq.Messaging.Topic.{Topic, message, health, malformed_topic, parse_topic}
use supermq.Messaging.Topic.Laws.{parse_topic_iff}
use supermq.Messaging.Topic.Errors.{parse_topic-err}
use supermq.Messaging.Subtopic.{with_subtopic, parse_publish_subtopic, parse_publish_topic}

message≢health : message ≢ health
message≢health e = cc

-- The domain and the channel of an accepted message topic are not empty.
pub parse_publish_topic-nonempty :
    (t : Bytes) (p : Topic)
    → parse_publish_topic t ≡ ok p
    → p.kind ≡ message
    → (p.domain ≢ []) × (p.channel ≢ [])
unfolding parse_publish_topic
parse_publish_topic-nonempty t p h k =
    let (q, parsed, rest) = >>=-eq-ok (parse_topic t) (with_subtopic parse_publish_subtopic) h in
    let (s, _, e) =
      wrapping->>=-eq-ok malformed_topic (parse_publish_subtopic q.subtopic)
        (λ s. ok (record q { subtopic = s })) rest in
    let same : (q.domain ≡ p.domain) × (q.channel ≡ p.channel) × (q.kind ≡ message) =
      ground arith in
    elim ((parse_topic_iff t q).0 parsed) [
      | inl m ↦ (rw (← same.0) m.split.domain_ne, rw (← same.1) m.split.channel_ne)
      | inr g ↦ absurd (message≢health (sym same.2 ∙ ap (λ (u : Topic). u.kind) g.is_health))
    ]

wrap-not_nil : (w e : Err) → is_nil w ≡ false → is_nil (wrap w e) ≡ false
unfolding wrap
wrap-not_nil nil e h = h
wrap-not_nil (foreign m) nil h = refl
wrap-not_nil (foreign m) e h = refl
wrap-not_nil (plain m i) nil h = refl
wrap-not_nil (plain m i) e h = refl
wrap-not_nil (typed k m i) nil h = refl
wrap-not_nil (typed k m i) e h = refl

with_subtopic-not_nil :
    (q : Topic) (e : Err) → with_subtopic parse_publish_subtopic q ≡ err e → is_nil e ≡ false
with_subtopic-not_nil q e h = go (parse_publish_subtopic q.subtopic) h
  where
    go :
        (r : Result Bytes)
        → (wrapping malformed_topic r >>= λ s. ok (record q { subtopic = s })) ≡ err e
        → is_nil e ≡ false
    go (ok s) h = cc
    go (err e') h =
        let q : wrap malformed_topic e' ≡ e = cc in
        subst (λ x. is_nil x ≡ false) q (wrap-not_nil malformed_topic e' refl)

-- A refusal comes with an error.
pub parse_publish_topic-not_nil :
    (t : Bytes) (e : Err) → parse_publish_topic t ≡ err e → is_nil e ≡ false
unfolding parse_publish_topic
parse_publish_topic-not_nil t e h = go (parse_topic t) (parse_topic-err t) h
  where
    go :
        (r : Result Topic)
        → ((e' : Err) → r ≡ err e' → e' ≡ malformed_topic)
        → (r >>= with_subtopic parse_publish_subtopic) ≡ err e
        → is_nil e ≡ false
    go (ok q) m h = with_subtopic-not_nil q e h
    go (err e') m h =
        let q : malformed_topic ≡ e = cc (m e' refl) in subst (λ x. is_nil x ≡ false) q refl

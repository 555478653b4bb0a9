-- ===== src/Messaging/Topic/Errors.antt =====
-- How ParseTopic fails.
use supermq.Common.{ℕ, zero, suc, ◌≡◌, refl, ap, ◌⊎◌, inl, inr, drop, Option, none, some, arith}
use supermq.Errors.{Err, Result, ok, err}
use supermq.Messaging.Bytes.{Bytes}
use supermq.Messaging.Topic.Grammar.{IsTopic}
use supermq.Messaging.Topic.Laws.{parse_topic_iff}
use supermq.Messaging.Topic.{
  Topic, malformed_topic, skip_slash, find_marker, parse_channel, cut_domain, parse_body,
  after_message_prefix, parse_message, parse_health, parse_from, parse_topic,
}

-- The one error of a parser.
abbrev IsMalformed : Result Topic → Type 0
IsMalformed (ok p) = Unit
IsMalformed (err e) = e ≡ malformed_topic

parse_channel-IsMalformed : (d rest : Bytes) → IsMalformed (parse_channel d rest)
unfolding parse_channel
parse_channel-IsMalformed d rest = ground arith

cut_domain-IsMalformed : (body : Bytes) (o : Option ℕ) → IsMalformed (cut_domain body o)
cut_domain-IsMalformed body none = refl
cut_domain-IsMalformed body (some zero) = refl
cut_domain-IsMalformed body (some (suc k)) = parse_channel-IsMalformed _ _

parse_body-IsMalformed : (o : Option Bytes) → IsMalformed (parse_body o)
parse_body-IsMalformed none = refl
parse_body-IsMalformed (some body) = cut_domain-IsMalformed body (find_marker body)

parse_message-IsMalformed : (t : Bytes) → IsMalformed (parse_message t)
unfolding parse_message
parse_message-IsMalformed t = ground (arith, parse_body-IsMalformed (after_message_prefix t))

parse_health-IsMalformed : (d : Bytes) → IsMalformed (parse_health d)
unfolding parse_health
parse_health-IsMalformed d = ground arith

parse_from-IsMalformed : (t : Bytes) → IsMalformed (parse_from t)
unfolding parse_from
parse_from-IsMalformed t =
    ground (arith, parse_message-IsMalformed t, parse_health-IsMalformed (drop 3 t))

parse_topic-IsMalformed : (t : Bytes) → IsMalformed (parse_topic t)
unfolding parse_topic
parse_topic-IsMalformed t = parse_from-IsMalformed (skip_slash t)

outcome :
    (r : Result Topic) → IsMalformed r → (r ≡ err malformed_topic) ⊎ ((p : Topic) × (r ≡ ok p))
outcome (ok p) h = inr (p, refl)
outcome (err e) h = inl (ap err h)

-- ParseTopic has one error: every topic is accepted or refused as malformed, and it is refused
-- exactly if the grammar gives it no parts.
pub parse_topic_total :
    (t : Bytes)
    → ((parse_topic t ≡ err malformed_topic) × ((p : Topic) → ¬ IsTopic t p))
      ⊎ ((p : Topic) × (parse_topic t ≡ ok p) × IsTopic t p)
parse_topic_total t = elim (outcome (parse_topic t) (parse_topic-IsMalformed t)) [
  | inl e ↦ inl (e, λ p g. refused (parse_topic t) p e ((parse_topic_iff t p).1 g))
  | inr (p, e) ↦ inr (p, e, (parse_topic_iff t p).0 e)
]
  where
    refused : (r : Result Topic) (p : Topic) → r ≡ err malformed_topic → r ≡ ok p → ⊥
    refused r p e f = cc

pub parse_topic-err : (t : Bytes) (e : Err) → parse_topic t ≡ err e → e ≡ malformed_topic
parse_topic-err t e h = go (parse_topic t) (parse_topic-IsMalformed t) h
  where
    go : (r : Result Topic) → IsMalformed r → r ≡ err e → e ≡ malformed_topic
    go (ok p) m h = cc
    go (err e') m h = cc

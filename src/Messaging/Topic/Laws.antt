-- ===== src/Messaging/Topic/Laws.antt =====
-- ParseTopic decides the grammar of topics, and reads back what the encoders write.
use supermq.Common.{
  ℕ, ◌≡◌, ◌≢◌, ◌↔◌, refl, sym, ap, ◌∙◌, ◌&&◌, [], ◌∷◌, ◌++◌, ◌⊎◌, inl, inr, arith, ◌==◌, Bool-cases,
}
use supermq.Errors.{ok}
use supermq.Messaging.Bytes.{Bytes, Lacks, eq_bytes}
use supermq.Messaging.Topic.{
  Topic, skip_slash, message_path, message_topic, health_topic, parse_health, parse_message,
  parse_from, parse_topic,
}
use supermq.Messaging.Topic.Parts.{
  has_byte_iff, body_of, message_path-append, parse_channel_complete, parse_channel_complete_sub,
  parse_message_sound, parse_message_complete, parse_health_sound,
}
use supermq.Messaging.Topic.Grammar.{IsSplit, IsMessage, IsHealth, IsTopic}

parse_from_sound : (t : Bytes) (p : Topic) → parse_from t ≡ ok p → IsMessage t p ⊎ IsHealth t p
unfolding parse_from eq_bytes
parse_from_sound (a ∷ b ∷ x ∷ y ∷ d) p h = elim (Bool-cases (a == b'h' && b == b'c')) [
  | inl e ↦
      let q : (a ≡ b'h') × (b ≡ b'c') × (parse_health (y ∷ d) ≡ ok p) = grind arith in
      inr (rw (q.0, q.1) (parse_health_sound x (y ∷ d) p (λ r. cc) q.2))
  | inr e ↦ inl (parse_message_sound (a ∷ b ∷ x ∷ y ∷ d) p (ground arith))
]
parse_from_sound [] p h = ground arith
parse_from_sound (a ∷ []) p h = inl (parse_message_sound (a ∷ []) p (ground arith))
parse_from_sound (a ∷ b ∷ []) p h = inl (parse_message_sound (a ∷ b ∷ []) p (ground arith))
parse_from_sound (a ∷ b ∷ x ∷ []) p h = inl (parse_message_sound (a ∷ b ∷ x ∷ []) p (ground arith))

pub parse_from-health :
    (x : ℕ) (d : Bytes)
    → d ≢ []
    → Lacks b'/' d
    → parse_from (b'h' ∷ b'c' ∷ x ∷ d) ≡ ok (health_topic d)
unfolding parse_from parse_health eq_bytes
parse_from-health x [] ne h = absurd (ne refl)
parse_from-health x (b ∷ d) ne h = ground (arith, has_byte_iff b'/' (b ∷ d))

parse_from-message : (s : Bytes) → parse_from (b'm' ∷ b'/' ∷ s) ≡ parse_message (b'm' ∷ b'/' ∷ s)
unfolding parse_from eq_bytes
parse_from-message s = ground arith

module _ (d c : Bytes) (w : IsSplit d c) where
  pub parse_from-path : parse_from (message_path d c) ≡ ok (message_topic d c [])
  parse_from-path =
      parse_from-message (body_of d c)
      ∙ parse_message_complete d c w.domain_ne w.domain_lacks
      ∙ parse_channel_complete d c w.channel_ne w.channel_lacks

  pub parse_from-path_sub :
      (s : Bytes) → parse_from (message_path d c ++ b'/' ∷ s) ≡ ok (message_topic d c s)
  parse_from-path_sub s =
      ap parse_from (message_path-append d c s)
      ∙ parse_from-message (body_of d (c ++ b'/' ∷ s))
      ∙ parse_message_complete d (c ++ b'/' ∷ s) w.domain_ne w.domain_lacks
      ∙ parse_channel_complete_sub d c s w.channel_ne w.channel_lacks

parse_from_complete : (t : Bytes) (p : Topic) → IsMessage t p ⊎ IsHealth t p → parse_from t ≡ ok p
parse_from_complete t p (inl m) = elim m.layout [
  | inl (same, bare) ↦ rw same (
      parse_from-path p.domain p.channel m.split
      ∙ ap ok (ap (message_topic p.domain p.channel) (sym bare) ∙ sym m.is_message))
  | inr same ↦
      rw same (parse_from-path_sub p.domain p.channel m.split p.subtopic ∙ ap ok (sym m.is_message))
]
parse_from_complete t p (inr h) =
    rw h.layout
      (parse_from-health h.separator p.domain h.domain_ne h.domain_lacks ∙ ap ok (sym h.is_health))

-- ParseTopic accepts exactly the topics of the grammar, with exactly the parts that the grammar
-- gives them: m/<domain>/c/<channel> with an optional subtopic, or hc, a byte, and a domain, both
-- behind an optional slash.
pub parse_topic_iff : (t : Bytes) (p : Topic) → (parse_topic t ≡ ok p) ↔ IsTopic t p
unfolding parse_topic
parse_topic_iff t p = (parse_from_sound (skip_slash t) p, parse_from_complete (skip_slash t) p)

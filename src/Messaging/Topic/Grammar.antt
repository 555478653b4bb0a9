-- ===== src/Messaging/Topic/Grammar.antt =====
-- The topics that ParseTopic takes, described with no index and no loop.
use supermq.Common.{◌≡◌, ◌≢◌, ℕ, [], ◌∷◌, ◌++◌, ◌⊎◌}
use supermq.Messaging.Bytes.{Bytes, Lacks}
use supermq.Messaging.Topic.{Topic, skip_slash, message_path, message_topic, health_topic}
use supermq.Messaging.Topic.Find.{LacksMarker, half_marker}

-- A message topic that can be read back: "/c/" begins nowhere in the domain, also not where the
-- separator completes it, and the channel is one level.
pub record IsSplit (d c : Bytes) : Type 0 where
  pub domain_ne : d ≢ []
  pub channel_ne : c ≢ []
  pub domain_lacks : LacksMarker (d ++ half_marker)
  pub channel_lacks : Lacks b'/' c

-- m/<domain>/c/<channel>, with or without a slash and a subtopic, which may be empty.
pub record IsMessage (t : Bytes) (p : Topic) : Type 0 where
  pub split : IsSplit p.domain p.channel
  pub is_message : p ≡ message_topic p.domain p.channel p.subtopic
  pub layout :
      ((t ≡ message_path p.domain p.channel) × (p.subtopic ≡ []))
      ⊎ (t ≡ message_path p.domain p.channel ++ b'/' ∷ p.subtopic)

-- "hc", any one byte, and a domain of one level.
pub record IsHealth (t : Bytes) (p : Topic) : Type 0 where
  pub separator : ℕ
  pub domain_ne : p.domain ≢ []
  pub domain_lacks : Lacks b'/' p.domain
  pub is_health : p ≡ health_topic p.domain
  pub layout : t ≡ b'h' ∷ b'c' ∷ separator ∷ p.domain

-- A leading slash is optional.
abbrev pub IsTopic : Bytes → Topic → Type 0
IsTopic t p = IsMessage (skip_slash t) p ⊎ IsHealth (skip_slash t) p

-- ===== src/Messaging/Topic/RoundTrip.antt =====
-- The encoders of topics.go against ParseTopic.
use mathlib.Core.Path.{subst}
use supermq.Common.{ℕ, ◌≡◌, ◌≢◌, sym, [], ◌∷◌, ◌++◌, inl, inr, map}
use supermq.Errors.{ok}
use supermq.Messaging.Bytes.{Bytes, Lacks, replace_byte}
use supermq.Messaging.Topic.{
  Topic, message_path, message_topic, health_topic, parse_topic, encode_adapter_topic,
  encode_mqtt_topic,
}
use supermq.Messaging.Topic.Grammar.{IsSplit, IsMessage, IsHealth}
use supermq.Messaging.Topic.Laws.{
  parse_topic_iff, parse_from-path, parse_from-path_sub, parse_from-health,
}

-- Behind a byte other than a slash nothing is skipped.
parse_topic-path :
    (d c : Bytes) → IsSplit d c → parse_topic (message_path d c) ≡ ok (message_topic d c [])
unfolding parse_topic
parse_topic-path d c w = parse_from-path d c w

parse_topic-path_sub :
    (d c s : Bytes)
    → IsSplit d c
    → parse_topic (message_path d c ++ b'/' ∷ s) ≡ ok (message_topic d c s)
unfolding parse_topic
parse_topic-path_sub d c s w = parse_from-path_sub d c w s

-- The health branch does not look at the byte between "hc" and the domain, so any byte there,
-- not only the slash, makes a health topic of a one-level domain.
pub health_any_separator :
    (x : ℕ) (d : Bytes)
    → d ≢ []
    → Lacks b'/' d
    → parse_topic (b'h' ∷ b'c' ∷ x ∷ d) ≡ ok (health_topic d)
unfolding parse_topic
health_any_separator x d ne h = parse_from-health x d ne h

encode-message :
    (d c s : Bytes)
    → IsSplit d c
    → parse_topic (encode_adapter_topic (message_topic d c s)) ≡ ok (message_topic d c s)
unfolding encode_adapter_topic
encode-message d c [] w = parse_topic-path d c w
encode-message d c (b ∷ s) w = parse_topic-path_sub d c (b ∷ s) w

encode-health :
    (d : Bytes)
    → d ≢ []
    → Lacks b'/' d
    → parse_topic (encode_adapter_topic (health_topic d)) ≡ ok (health_topic d)
unfolding encode_adapter_topic
encode-health d ne h = health_any_separator b'/' d ne h

Reencodes : Topic → Type 0
Reencodes p = parse_topic (encode_adapter_topic p) ≡ ok p

encode-IsMessage : (t : Bytes) (p : Topic) → IsMessage t p → Reencodes p
unfolding Reencodes
encode-IsMessage t p m =
    subst Reencodes (sym m.is_message) (encode-message p.domain p.channel p.subtopic m.split)

encode-IsHealth : (t : Bytes) (p : Topic) → IsHealth t p → Reencodes p
unfolding Reencodes
encode-IsHealth t p h =
    subst Reencodes (sym h.is_health) (encode-health p.domain h.domain_ne h.domain_lacks)

-- The topic that `encodeAdapterTopic` writes for the parts of an accepted topic is accepted with
-- those parts and that type.
pub parse_topic-encode_adapter_topic :
    (t : Bytes) (p : Topic) → parse_topic t ≡ ok p → parse_topic (encode_adapter_topic p) ≡ ok p
unfolding Reencodes
parse_topic-encode_adapter_topic t p h = elim ((parse_topic_iff t p).0 h) [
  | inl m ↦ encode-IsMessage _ p m
  | inr m ↦ encode-IsHealth _ p m
]

-- The MQTT topic of a message is accepted with the message's domain and channel, and with its
-- subtopic as MQTT levels: each dot is a slash. The domain and the channel must be splittable,
-- as IDs are.
pub parse_topic-encode_mqtt_topic :
    (d c s : Bytes)
    → IsSplit d c
    → parse_topic (encode_mqtt_topic d c s)
      ≡ ok (message_topic d c (map (replace_byte b'.' b'/') s))
unfolding encode_mqtt_topic
parse_topic-encode_mqtt_topic d c [] w = parse_topic-path d c w
parse_topic-encode_mqtt_topic d c (b ∷ s) w =
    parse_topic-path_sub d c (map (replace_byte b'.' b'/') (b ∷ s)) w

-- ===== src/Tests/Topics.antt =====
-- Topics and subtopics of pkg/messaging at concrete inputs.
use Prim.Native.Char.{code}
use supermq.Common.{String, ◌≡◌, refl, ◌↔◌, ◌⊎◌, [], ◌∷◌, arith}
use supermq.Errors.{ok, err}
use supermq.Messaging.Bytes.{Bytes}
use supermq.Messaging.Topic.{
  Topic, message_topic, malformed_topic, parse_topic, encode_adapter_topic, encode_mqtt_topic,
}
use supermq.Messaging.Topic.Grammar.{IsSplit, IsTopic}
use supermq.Messaging.Topic.Laws.{parse_topic_iff}
use supermq.Messaging.Topic.RoundTrip.{parse_topic-encode_adapter_topic}
use supermq.Messaging.Topic.Errors.{parse_topic_total}
use supermq.Messaging.Subtopic.{
  parse_publish_subtopic, parse_subscribe_subtopic, parse_publish_topic, malformed_subtopic,
}
use supermq.Messaging.Subtopic.Laws.{
  IsPublishable, IsSubscribable, parse_publish_subtopic-IsPublishable,
  parse_subscribe_subtopic-IsSubscribable,
}
use supermq.Messaging.Subtopic.Agree.{parse_subscribe_subtopic-publish}
use supermq.Messaging.Subtopic.RoundTrip.{IsCarried, parse_publish_topic-encode_mqtt_topic}

-- The bytes of an ASCII text.
abbrev codes : String → Bytes
codes String.[] = []
codes (String.◌∷◌ c s) = code c ∷ codes s

abbrev plain_topic : Bytes
plain_topic = codes "/m/d1/c/x/y/z"

abbrev plain_parts : Topic
plain_parts = message_topic (codes "d1") (codes "x") (codes "y/z")

plain_topic_parsed : parse_topic plain_topic ≡ ok plain_parts
unfolding parse_topic
plain_topic_parsed = refl

refused_topics :
    (parse_topic (codes "m//c/x") ≡ err malformed_topic)
    × (parse_topic (codes "m/d1/c/") ≡ err malformed_topic)
    × (parse_topic (codes "hc/a/b") ≡ err malformed_topic)
    × (parse_topic (codes "m/c/c/x") ≡ ok (message_topic (codes "c") (codes "x") []))
unfolding parse_topic
refused_topics = (refl, refl, refl, refl)

d1_x-IsSplit : IsSplit (codes "d1") (codes "x")
d1_x-IsSplit = record {
  domain_ne = λ e. cc;
  channel_ne = λ e. cc;
  domain_lacks = ground arith;
  channel_lacks = ground arith;
}

parse_topic_iff_example :
    (parse_topic plain_topic ≡ ok plain_parts) ↔ IsTopic plain_topic plain_parts
parse_topic_iff_example = parse_topic_iff plain_topic plain_parts

parse_topic_total_example :
    ((parse_topic plain_topic ≡ err malformed_topic) × ((p : Topic) → ¬ IsTopic plain_topic p))
    ⊎ ((p : Topic) × (parse_topic plain_topic ≡ ok p) × IsTopic plain_topic p)
parse_topic_total_example = parse_topic_total plain_topic

parse_topic-encode_adapter_topic_example :
    parse_topic (encode_adapter_topic plain_parts) ≡ ok plain_parts
parse_topic-encode_adapter_topic_example =
    parse_topic-encode_adapter_topic plain_topic plain_parts plain_topic_parsed

publish_runs :
    (parse_publish_subtopic (codes "/a%20/") ≡ ok (codes "a"))
    × (parse_publish_subtopic (codes "a/%2a") ≡ err malformed_subtopic)
    × (parse_subscribe_subtopic (codes "a/+/#") ≡ ok (codes "a.*.>"))
    × (parse_subscribe_subtopic (codes "a/b+") ≡ err malformed_subtopic)
unfolding parse_publish_subtopic parse_subscribe_subtopic
publish_runs = (refl, refl, refl, refl)

parse_publish_subtopic-IsPublishable_example : IsPublishable (codes "a")
parse_publish_subtopic-IsPublishable_example =
    parse_publish_subtopic-IsPublishable (codes "/a%20/") (codes "a") publish_runs.0

parse_subscribe_subtopic-IsSubscribable_example : IsSubscribable (codes "a.*.>")
parse_subscribe_subtopic-IsSubscribable_example =
    parse_subscribe_subtopic-IsSubscribable (codes "a/+/#") (codes "a.*.>") publish_runs.2

parse_subscribe_subtopic-publish_example :
    parse_subscribe_subtopic (codes "/a%20/") ≡ ok (codes "a")
parse_subscribe_subtopic-publish_example =
    parse_subscribe_subtopic-publish (codes "/a%20/") (codes "a") (ground arith) (ground arith)
      publish_runs.0

y_z-IsCarried : IsCarried (codes "y.z")
y_z-IsCarried = record {
  publishable = record { allowed = ground arith; literal = ground arith; levels = ground arith };
  printable = omega arith;
  unescaped = ground arith;
  begins = omega arith;
  ends = omega arith;
}

parse_publish_topic-encode_mqtt_topic_example :
    parse_publish_topic (encode_mqtt_topic (codes "d1") (codes "x") (codes "y.z"))
    ≡ ok (message_topic (codes "d1") (codes "x") (codes "y.z"))
parse_publish_topic-encode_mqtt_topic_example =
    parse_publish_topic-encode_mqtt_topic (codes "d1") (codes "x") (codes "y.z") d1_x-IsSplit
      y_z-IsCarried

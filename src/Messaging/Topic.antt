-- ===== src/Messaging/Topic.antt =====
-- ParseTopic and the encoders of pkg/messaging/topics.go, with the health prefix of health.go.
-- The source walks an index over the topic; here the bytes before the index are dropped, so a
-- test `n < start+5` is one on the length of what is left.
pub mod Find
pub mod Grammar
pub mod Parts
pub mod Laws
pub mod RoundTrip
pub mod Errors
use supermq.Common.{
  ℕ, zero, suc, ◌&&◌, Option, none, some, [], ◌∷◌, ◌++◌, ltb, ◌==◌, if◌then◌else◌, length, take,
  drop, map,
}
use supermq.Errors.{Err, new, Result, ok, err}
use supermq.Messaging.Bytes.{Bytes, is_empty, eq_bytes, has_byte, replace_byte}
use mathlib.Core.Option

pub data TopicType : Type 0 where
  invalid message health : TopicType

pub record Topic : Type 0 where
  pub domain : Bytes
  pub channel : Bytes
  pub subtopic : Bytes
  pub kind : TopicType

abbrev pub malformed_topic : Err
malformed_topic = new none "malformed topic"

abbrev pub malformed : Result Topic
malformed = err malformed_topic

abbrev pub health_prefix : Bytes
health_prefix = b'h' ∷ b'c' ∷ []

-- "/c/"
abbrev pub marker : Bytes
marker = b'/' ∷ b'c' ∷ b'/' ∷ []

abbrev pub message_topic : Bytes → Bytes → Bytes → Topic
message_topic d c s = record { domain = d; channel = c; subtopic = s; kind = message }

abbrev pub health_topic : Bytes → Topic
health_topic d = record { domain = d; channel = []; subtopic = []; kind = health }

-- `start := 0; if n > 0 && topic[0] == '/' { start = 1 }`
abbrev pub skip_slash : Bytes → Bytes
skip_slash [] = []
skip_slash (c ∷ t) = if c == b'/' then t else c ∷ t

-- The loop that looks for "/c/": the index of its first occurrence.
unfoldable pub find_marker : Bytes → Option ℕ
find_marker (a ∷ b ∷ c ∷ s) =
    let later = Option.map suc (find_marker (b ∷ c ∷ s)) in
    if a == b'/' && (b == b'c' && c == b'/') then some 0 else later
find_marker _ = none

-- The loop that looks for the '/' after the channel.
unfoldable pub find_slash : Bytes → Option ℕ
find_slash [] = none
find_slash (c ∷ s) =
    let later = Option.map suc (find_slash s) in if c == b'/' then some 0 else later

-- From "Domain is the remainder" on.
unfoldable pub parse_health : Bytes → Result Topic
unfolding has_byte
parse_health d = if has_byte b'/' d then malformed else ok (health_topic d)

-- The channel and the subtopic, given the next slash.
abbrev pub cut_channel : Bytes → Bytes → Option ℕ → Result Topic
cut_channel d rest none = if is_empty rest then malformed else ok (message_topic d rest [])
cut_channel d rest (some i) =
    if is_empty (take i rest)
    then malformed
    else ok (message_topic d (take i rest) (drop 1 (drop i rest)))

-- From "skip /c/" on; `rest` begins at the channel.
unfoldable pub parse_channel : Bytes → Bytes → Result Topic
unfolding find_slash
parse_channel d rest = if is_empty rest then malformed else cut_channel d rest (find_slash rest)

abbrev pub cut_domain : Bytes → Option ℕ → Result Topic
cut_domain body none = malformed
cut_domain body (some zero) = malformed
cut_domain body (some (suc k)) = parse_channel (take (suc k) body) (drop 3 (drop (suc k) body))

-- The test of the bytes before the domain, "m/".
abbrev pub after_message_prefix : Bytes → Option Bytes
after_message_prefix (a ∷ b ∷ s) = if a == b'm' && b == b'/' then some s else none
after_message_prefix _ = none

abbrev pub parse_body : Option Bytes → Result Topic
parse_body none = malformed
parse_body (some body) = cut_domain body (find_marker body)

-- From "Messaging" on.
unfoldable pub parse_message : Bytes → Result Topic
unfolding parse_channel find_marker
parse_message t = if ltb (length t) 5 then malformed else parse_body (after_message_prefix t)

-- From the test of the length on; `t` begins at `start`. In the branch for the prefix "hc" the
-- source also refuses a topic of three bytes, which the test above it has ruled out.
unfoldable pub parse_from : Bytes → Result Topic
unfolding parse_health parse_message eq_bytes
parse_from t =
    if is_empty t
    then malformed
    else if ltb 3 (length t) && eq_bytes (take 2 t) health_prefix
    then (if length t == 3 then malformed else parse_health (drop 3 t))
    else parse_message t

-- ParseTopic
unfoldable pub parse_topic : Bytes → Result Topic
unfolding parse_from
parse_topic topic = parse_from (skip_slash topic)

-- EncodeTopicSuffix
unfoldable pub encode_topic_suffix : Bytes → Bytes → Bytes → Bytes
encode_topic_suffix d c s =
    let subject = d ++ b'.' ∷ b'c' ∷ b'.' ∷ c in if is_empty s then subject else subject ++ b'.' ∷ s

-- EncodeTopic
unfoldable pub encode_topic : Bytes → Bytes → Bytes → Bytes
unfolding encode_topic_suffix
encode_topic d c s = b'm' ∷ b'.' ∷ encode_topic_suffix d c s

-- fmt.Sprintf("%s/%s/%s/%s", "m", domain, "c", channel)
abbrev pub message_path : Bytes → Bytes → Bytes
message_path d c = b'm' ∷ b'/' ∷ (d ++ (marker ++ c))

-- EncodeMessageMQTTTopic, on the three fields that it reads of the message
unfoldable pub encode_mqtt_topic : Bytes → Bytes → Bytes → Bytes
encode_mqtt_topic d c s =
    if is_empty s
    then message_path d c
    else message_path d c ++ b'/' ∷ map (replace_byte b'.' b'/') s

-- encodeAdapterTopic
unfoldable pub encode_adapter_topic : Topic → Bytes
encode_adapter_topic t = elim t.kind [
  | health ↦ health_prefix ++ b'/' ∷ t.domain
  | _ ↦
      if is_empty t.subtopic
      then message_path t.domain t.channel
      else message_path t.domain t.channel ++ b'/' ∷ t.subtopic
]

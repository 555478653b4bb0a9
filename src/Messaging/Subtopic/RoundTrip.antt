-- ===== src/Messaging/Subtopic/RoundTrip.antt =====
-- A published message survives the way through its MQTT topic and back.
use mathlib.Core.List.{reverse-reverse, map-append, reverse-cons}
use supermq.Common.{ℕ, ◌≡◌, ◌≢◌, refl, ap, ◌∙◌, false, [], ◌∷◌, ◌++◌, map, reverse, All, arith}
use supermq.Errors.{ok, ◌>>=◌, wrapping}
use supermq.Messaging.Bytes.{
  Bytes, Lacks, has_byte, contains_any, replace_byte, trim_prefix, trim_suffix, trim_space,
}
use supermq.Messaging.Topic.{message_topic, encode_mqtt_topic}
use supermq.Messaging.Topic.Grammar.{IsSplit}
use supermq.Messaging.Topic.RoundTrip.{parse_topic-encode_mqtt_topic}
use supermq.Messaging.Subtopic.{
  wildcards, subtopic_invalid_chars, trim_subtopic, format_subtopic, check_publish,
  parse_publish_subtopic, parse_publish_topic, malformed_subtopic,
}
use supermq.Messaging.Subtopic.Space.{
  All-reverse, IsPrintable, trim_space-IsPrintable, query_unescape-Lacks,
}
use supermq.Messaging.Subtopic.Laws.{IsPublishable, IsAllowed, IsLiteral, has_dots_iff}

abbrev pub to_levels : Bytes → Bytes
to_levels = map (replace_byte b'.' b'/')

abbrev pub HasNoDotAhead : Bytes → Type 0
HasNoDotAhead [] = Unit
HasNoDotAhead (b ∷ s) = b ≢ b'.'

-- A subject's subtopic that MQTT levels can carry: publishable, printable ASCII with no percent
-- sign, and with no dot at either end.
pub record IsCarried (t : Bytes) : Type 0 where
  pub publishable : IsPublishable t
  pub printable : All IsPrintable t
  pub unescaped : Lacks b'%' t
  pub begins : HasNoDotAhead t
  pub ends : HasNoDotAhead (reverse t)

trim_prefix-to_levels :
    (t : Bytes) → HasNoDotAhead t → Lacks b'/' t → trim_prefix b'/' (to_levels t) ≡ to_levels t
trim_prefix-to_levels [] h g = refl
trim_prefix-to_levels (b ∷ t) h g = ground arith

reverse-map : (f : ℕ → ℕ) (s : Bytes) → reverse (map f s) ≡ map f (reverse s)
reverse-map f [] = refl
reverse-map f (b ∷ s) = rw (reverse-cons, reverse-cons, map-append, reverse-map f s)

trim_suffix-to_levels :
    (t : Bytes)
    → HasNoDotAhead (reverse t)
    → Lacks b'/' (reverse t)
    → trim_suffix b'/' (to_levels t) ≡ to_levels t
trim_suffix-to_levels t h g =
    ap (λ s. reverse (trim_prefix b'/' s)) (reverse-map (replace_byte b'.' b'/') t)
    ∙ ap reverse (trim_prefix-to_levels (reverse t) h g)
    ∙ reverse-map (replace_byte b'.' b'/') (reverse t)
    ∙ ap to_levels (reverse-reverse t)

to_levels_back : (t : Bytes) → Lacks b'/' t → map (replace_byte b'/' b'.') (to_levels t) ≡ t
to_levels_back [] h = refl
to_levels_back (b ∷ t) h = ground (arith, to_levels_back t h.1)

to_levels-IsPrintable : (t : Bytes) → All IsPrintable t → All IsPrintable (to_levels t)
to_levels-IsPrintable [] h = tt
to_levels-IsPrintable (b ∷ t) h = ground (arith, to_levels-IsPrintable t h.1)

to_levels-Lacks : (c : ℕ) (t : Bytes) → c ≢ b'/' → Lacks c t → Lacks c (to_levels t)
to_levels-Lacks c [] n h = tt
to_levels-Lacks c (b ∷ t) n h = ground (arith, to_levels-Lacks c t n h.1)

allowed-Lacks : (t : Bytes) → All IsAllowed t → Lacks b'/' t × Lacks b'+' t
allowed-Lacks [] h = (tt, tt)
allowed-Lacks (b ∷ t) h = ground (arith, allowed-Lacks t h.1)

no_invalid :
    (t : Bytes)
    → All IsAllowed t
    → All IsLiteral t
    → contains_any t (subtopic_invalid_chars ++ wildcards) ≡ false
unfolding contains_any has_byte
no_invalid [] h g = refl
no_invalid (b ∷ t) h g = ground (arith, no_invalid t h.1 g.1)

check_publish-IsPublishable : (t : Bytes) → IsPublishable t → check_publish t ≡ ok t
unfolding check_publish
check_publish-IsPublishable t p = rw (no_invalid t p.allowed p.literal, (has_dots_iff t).1 p.levels)

module _ (t : Bytes) (w : IsCarried t) where
  lacks : Lacks b'/' t × Lacks b'+' t
  lacks = allowed-Lacks t w.publishable.allowed

  trim_subtopic-to_levels : trim_subtopic (to_levels t) ≡ t
  unfolding trim_subtopic
  trim_subtopic-to_levels =
      ap (λ s. map (replace_byte b'/' b'.') (trim_space (trim_suffix b'/' s)))
        (trim_prefix-to_levels t w.begins lacks.0)
      ∙ ap (λ s. map (replace_byte b'/' b'.') (trim_space s))
          (trim_suffix-to_levels t w.ends (All-reverse (λ b. b ≢ b'/') t lacks.0))
      ∙ ap (map (replace_byte b'/' b'.'))
          (trim_space-IsPrintable (to_levels t) (to_levels-IsPrintable t w.printable))
      ∙ to_levels_back t lacks.0

  format_subtopic-to_levels : format_subtopic (to_levels t) ≡ ok t
  unfolding format_subtopic
  format_subtopic-to_levels =
      rw
        (query_unescape-Lacks (to_levels t) (to_levels-Lacks b'%' t (omega arith) w.unescaped)
          (to_levels-Lacks b'+' t (omega arith) lacks.1))
        (ap ok trim_subtopic-to_levels)

  publish_checks :
      (wrapping malformed_subtopic (format_subtopic (to_levels t)) >>= λ s. check_publish s) ≡ ok t
  publish_checks = rw format_subtopic-to_levels (check_publish-IsPublishable t w.publishable)

parse_publish_subtopic-to_levels :
    (t : Bytes) → IsCarried t → parse_publish_subtopic (to_levels t) ≡ ok t
unfolding parse_publish_subtopic
parse_publish_subtopic-to_levels [] w = refl
parse_publish_subtopic-to_levels (b ∷ t) w = publish_checks (b ∷ t) w

-- The MQTT topic of a message is one that may be published to, and it parses to the message's own
-- domain, channel and subtopic. The domain and the channel must be splittable, as IDs are, and the
-- subtopic one that MQTT levels can carry.
pub parse_publish_topic-encode_mqtt_topic :
    (d c t : Bytes)
    → IsSplit d c
    → IsCarried t
    → parse_publish_topic (encode_mqtt_topic d c t) ≡ ok (message_topic d c t)
unfolding parse_publish_topic
parse_publish_topic-encode_mqtt_topic d c t s w =
    rw (parse_topic-encode_mqtt_topic d c t s, parse_publish_subtopic-to_levels t w)

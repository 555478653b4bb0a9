-- ===== src/Messaging/Parser/Laws.antt =====
-- The caching parser answers as it would with no cache.
use supermq.Common.{
  ◌≡◌, ◌⊎◌, refl, ap, ◌∙◌, Bool, true, false, not, ◌&&◌, some, [], arith, Bool-cases, Option-cases,
  inl, inr,
}
use supermq.Errors.{nil, is_nil, Result, ok, err}
use supermq.Messaging.Bytes.{Bytes}
use supermq.Messaging.Topic.{Topic, message, invalid, message_topic}
use supermq.Messaging.Subtopic.{parse_publish_topic}
use supermq.Messaging.Parser.{
  Directory, Resolved, ParsedTopic, TopicCache, Outcome, parsed, is_message, resolve_if,
  after_resolve, after_parse, after_lookup, publish_miss, publish,
}
use supermq.Messaging.Parser.Resolving.{IsId, resolve_no_route}

-- The first answer is from a parser with a cache, the second from one without. They have the same
-- error and the same parts, and the same type of the topic; or the topic is refused, and the first
-- calls it a message where the second calls it invalid, since a hit always has the type of a message.
pub record SameAnswer (o o' : Outcome) : Type 0 where
  pub error : o.error ≡ o'.error
  pub topic : o.error ≡ nil → o.topic ≡ o'.topic
  pub domain : o.topic.domain ≡ o'.topic.domain
  pub channel : o.topic.channel ≡ o'.topic.channel
  pub subtopic : o.topic.subtopic ≡ o'.topic.subtopic
  pub kind :
      (o.topic.kind ≡ o'.topic.kind)
      ⊎ ((is_nil o.error ≡ false) × (o.topic.kind ≡ message) × (o'.topic.kind ≡ invalid))

-- What the cache may hold under a topic: what parsing gives, if that is a message topic, and the
-- error otherwise.
pub data IsGenuine (t : Bytes) (v : ParsedTopic) : Type 0 where
  accepted :
      v.error ≡ nil
      → parse_publish_topic t ≡ ok (message_topic v.domain v.channel v.subtopic)
      → IsGenuine t v
  refused :
      parse_publish_topic t ≡ err v.error
      → v.domain ≡ []
      → v.channel ≡ []
      → v.subtopic ≡ []
      → IsGenuine t v

is_message-message :
    (p : Topic) → is_message p.kind ≡ true → p ≡ message_topic p.domain p.channel p.subtopic
is_message-message p h = ground arith

module _ (from_string : Bytes → Result Bytes) (cache : TopicCache) where
  open cache use {Store, get, put, get-put}

  -- Every entry of the cache is genuine, and holds IDs only if `resolved` says so.
  pub record IsGenuineCache (c : Store) : Type 0 where
    pub at : (t : Bytes) (v : ParsedTopic) → get c t ≡ some v → IsGenuine t v

  abbrev pub HoldsIds : ParsedTopic → Type 0
  HoldsIds v = v.error ≡ nil → IsId from_string v.domain × IsId from_string v.channel

  pub record IsResolvedCache (c : Store) : Type 0 where
    pub genuine : IsGenuineCache c
    pub ids : (t : Bytes) (v : ParsedTopic) → get c t ≡ some v → HoldsIds v

  put-IsGenuineCache :
      (c : Store) (t : Bytes) (v : ParsedTopic)
      → IsGenuineCache c
      → IsGenuine t v
      → IsGenuineCache (put c t v)
  put-IsGenuineCache c t v h g = record {
    at = λ j w e. elim (get-put c t j v w e) [
      | inl same ↦ rw (same.0, same.1) g
      | inr old ↦ h.at j w old
    ];
  }

  after_resolve-IsGenuineCache :
      (c : Store) (t : Bytes) (p : Topic) (r : Result Resolved)
      → IsGenuineCache c
      → parse_publish_topic t ≡ ok p
      → ((s : Resolved)
          → r ≡ ok s
          → s.is_route ≡ false
          → (s.domain ≡ p.domain) × (s.channel ≡ p.channel))
      → IsGenuineCache (after_resolve from_string cache c t p r).1
  after_resolve-IsGenuineCache c t p (err e) h parsed same = h
  after_resolve-IsGenuineCache c t p (ok r) h parsed same =
      elim (Bool-cases (not r.is_route && is_message p.kind)) [
        | inl stored ↦
            let q : (r.is_route ≡ false) × (is_message p.kind ≡ true) = ground arith in
            let (d, ch) = same r refl q.0 in
            rw stored (
              put-IsGenuineCache c t
                (record {
                  domain = r.domain;
                  channel = r.channel;
                  subtopic = p.subtopic;
                  error = nil;
                })
                h
                (IsGenuine.accepted refl (rw (d, ch) (parsed ∙ ap ok (is_message-message p q.1)))))
        | inr dropped ↦ rw dropped h
      ]

  -- Without a wish to resolve the parts stay, and what was no route stays too.
  resolve_if_no_route :
      (dir : Directory) (wanted : Bool) (p : Topic) (s : Resolved)
      → resolve_if from_string dir wanted p ≡ ok s
      → s.is_route ≡ false
      → (s.domain ≡ p.domain) × (s.channel ≡ p.channel)
  resolve_if_no_route dir false p s h n = ground arith
  resolve_if_no_route dir true p s h n =
      let w = resolve_no_route from_string dir p.domain p.channel s h n in
      (w.same_domain, w.same_channel)

  after_parse-IsGenuineCache :
      (c : Store) (dir : Directory) (t : Bytes) (wanted : Bool) (r : Result Topic)
      → IsGenuineCache c
      → parse_publish_topic t ≡ r
      → IsGenuineCache (after_parse from_string cache c dir t wanted r).1
  unfolding after_parse
  after_parse-IsGenuineCache c dir t wanted (err e) h same =
      put-IsGenuineCache c t _ h (IsGenuine.refused same refl refl refl)
  after_parse-IsGenuineCache c dir t wanted (ok p) h same =
      after_resolve-IsGenuineCache c t p (resolve_if from_string dir wanted p) h same
        (resolve_if_no_route dir wanted p)

  -- Whatever the calls were before, and whether or not they resolved, a call keeps every entry of
  -- the cache genuine: an entry is what its topic parses to.
  pub publish-IsGenuineCache :
      (c : Store) (dir : Directory) (t : Bytes) (wanted : Bool)
      → IsGenuineCache c
      → IsGenuineCache (publish from_string cache c dir t wanted).1
  unfolding publish after_lookup publish_miss
  publish-IsGenuineCache c dir t wanted h = elim (Option-cases (get c t)) [
    | inl miss ↦ rw (miss, after_lookup) (after_parse-IsGenuineCache c dir t wanted _ h refl)
    | inr (v, hit) ↦ rw (hit, after_lookup) h
  ]

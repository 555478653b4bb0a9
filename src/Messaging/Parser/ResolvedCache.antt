-- ===== src/Messaging/Parser/ResolvedCache.antt =====
-- A parser that always resolves caches only IDs, so a hit is what resolution would give.
use supermq.Common.{
  ◌≡◌, refl, true, false, not, ◌&&◌, some, List, [], ◌∷◌, arith, Bool-cases, Option-cases, inl, inr,
  All,
}
use supermq.Errors.{Err, nil, Result, ok, err, is_nil}
use supermq.Messaging.Bytes.{Bytes}
use supermq.Messaging.Topic.{Topic, message}
use supermq.Messaging.Subtopic.{parse_publish_topic}
use supermq.Messaging.Subtopic.Parts.{parse_publish_topic-nonempty, parse_publish_topic-not_nil}
use supermq.Messaging.Parser.{
  Directory, Resolved, ParsedTopic, TopicCache, is_message, resolve, after_resolve, after_parse,
  after_lookup, publish_miss, publish,
}
use supermq.Messaging.Parser.Resolving.{resolve_no_route}
use supermq.Messaging.Parser.Laws.{SameAnswer, IsResolvedCache, HoldsIds, publish-IsGenuineCache}
use supermq.Messaging.Parser.Transparent.{Call, run, SameAnswer-refl, hit_ids-SameAnswer}

is_message-kind : (p : Topic) → is_message p.kind ≡ true → p.kind ≡ message
is_message-kind p h = ground arith

module _ (from_string : Bytes → Result Bytes) (cache : TopicCache) where
  open cache use {Store, get, put, get-put}

  -- Every entry without an error holds IDs.
  abbrev AllIds : Store → Type 0
  AllIds c = (t : Bytes) (v : ParsedTopic) → get c t ≡ some v → HoldsIds from_string cache v

  put-AllIds :
      (c : Store) (t : Bytes) (v : ParsedTopic)
      → AllIds c
      → HoldsIds from_string cache v
      → AllIds (put c t v)
  put-AllIds c t v h g j w e = elim (get-put c t j v w e) [
    | inl same ↦ rw same.1 g
    | inr old ↦ h j w old
  ]

  after_resolve-AllIds :
      (c : Store) (dir : Directory) (t : Bytes) (p : Topic) (r : Result Resolved)
      → AllIds c
      → parse_publish_topic t ≡ ok p
      → resolve from_string dir p.domain p.channel ≡ r
      → AllIds (after_resolve from_string cache c t p r).1
  after_resolve-AllIds c dir t p (err e) h parsed found = h
  after_resolve-AllIds c dir t p (ok r) h parsed found =
      elim (Bool-cases (not r.is_route && is_message p.kind)) [
        | inl stored ↦
            let q : (r.is_route ≡ false) × (is_message p.kind ≡ true) = ground arith in
            let w = resolve_no_route from_string dir p.domain p.channel r found q.0 in
            let (_, channel_ne) = parse_publish_topic-nonempty t p parsed (is_message-kind p q.1) in
            rw stored (
              put-AllIds c t
                (record {
                  domain = r.domain;
                  channel = r.channel;
                  subtopic = p.subtopic;
                  error = nil;
                })
                h
                (λ _. (rw w.same_domain w.domain_id, rw w.same_channel (w.channel_id channel_ne))))
        | inr dropped ↦ rw dropped h
      ]

  nil_error : (e : Err) → e ≡ nil → is_nil e ≡ false → ⊥
  nil_error e n h = ground arith

  after_parse-AllIds :
      (c : Store) (dir : Directory) (t : Bytes) (r : Result Topic)
      → AllIds c
      → parse_publish_topic t ≡ r
      → AllIds (after_parse from_string cache c dir t true r).1
  unfolding after_parse
  after_parse-AllIds c dir t (err e) h same =
      put-AllIds c t _ h (λ n. absurd (nil_error e n (parse_publish_topic-not_nil t e same)))
  after_parse-AllIds c dir t (ok p) h same =
      after_resolve-AllIds c dir t p (resolve from_string dir p.domain p.channel) h same refl

  publish-AllIds :
      (c : Store) (dir : Directory) (t : Bytes)
      → AllIds c
      → AllIds (publish from_string cache c dir t true).1
  unfolding publish after_lookup publish_miss
  publish-AllIds c dir t h = elim (Option-cases (get c t)) [
    | inl miss ↦ rw (miss, after_lookup) (after_parse-AllIds c dir t (parse_publish_topic t) h refl)
    | inr (v, hit) ↦ rw (hit, after_lookup) h
  ]

  run-IsResolvedCache :
      (c : Store) (calls : List Call)
      → All (λ call. call.wanted ≡ true) calls
      → IsResolvedCache from_string cache c
      → IsResolvedCache from_string cache (run from_string cache c calls)
  unfolding run
  run-IsResolvedCache c [] w h = h
  run-IsResolvedCache c (call ∷ calls) w h =
      run-IsResolvedCache (publish from_string cache c call.dir call.topic call.wanted).1 calls w.1
        (rw w.0 (record {
          genuine = publish-IsGenuineCache from_string cache c call.dir call.topic true h.genuine;
          ids = publish-AllIds c call.dir call.topic h.ids;
        }))

  publish_resolved-SameAnswer :
      (c : Store) (dir : Directory) (t : Bytes)
      → IsResolvedCache from_string cache c
      → SameAnswer
          (publish from_string cache c dir t true).0
          (publish_miss from_string cache c dir t true).0
  unfolding publish after_lookup
  publish_resolved-SameAnswer c dir t h = elim (Option-cases (get c t)) [
    | inl miss ↦
        rw (miss, after_lookup) (SameAnswer-refl (publish_miss from_string cache c dir t true).0)
    | inr (v, hit) ↦
        rw (hit, after_lookup)
          (hit_ids-SameAnswer from_string cache c dir t v (h.genuine.at t v hit) (h.ids t v hit))
  ]

  -- After any calls that all resolved, also against services whose routes changed on the way, a
  -- resolving call gives the error, the domain, the channel and the subtopic that it gives with no
  -- entry in the cache, so that no stale route is ever returned; and the same type of the topic: but
  -- a refused topic may have the type of a message, where it is invalid with no entry.
  pub publish_resolved_transparent :
      (c : Store) (calls : List Call) (dir : Directory) (t : Bytes)
      → All (λ call. call.wanted ≡ true) calls
      → IsResolvedCache from_string cache c
      → SameAnswer
          (publish from_string cache (run from_string cache c calls) dir t true).0
          (publish_miss from_string cache (run from_string cache c calls) dir t true).0
  publish_resolved_transparent c calls dir t w h =
      publish_resolved-SameAnswer (run from_string cache c calls) dir t
        (run-IsResolvedCache c calls w h)

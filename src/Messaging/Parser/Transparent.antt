-- ===== src/Messaging/Parser/Transparent.antt =====
-- A sequence of calls of the caching parser against the parser with no cache.
use supermq.Common.{◌≡◌, refl, Bool, true, false, List, [], ◌∷◌, arith, Option-cases, inl, inr}
use supermq.Errors.{Err, nil, Result, err, is_nil}
use supermq.Messaging.Bytes.{Bytes}
use supermq.Messaging.Subtopic.{parse_publish_topic}
use supermq.Messaging.Subtopic.Parts.{parse_publish_topic-nonempty, parse_publish_topic-not_nil}
use supermq.Messaging.Parser.{
  Directory, ParsedTopic, TopicCache, Outcome, parsed, from_entry, after_resolve, after_parse,
  after_lookup, publish_miss, publish,
}
use supermq.Messaging.Parser.Resolving.{resolve_ids}
use supermq.Messaging.Parser.Laws.{
  SameAnswer, IsGenuine, IsGenuineCache, HoldsIds, publish-IsGenuineCache,
}

-- One call of the parser: what the services answered then, the topic, and whether to resolve.
pub record Call : Type 0 where
  pub dir : Directory
  pub topic : Bytes
  pub wanted : Bool

pub SameAnswer-refl : (o : Outcome) → SameAnswer o o
SameAnswer-refl o = record {
  error = refl;
  topic = λ _. refl;
  domain = refl;
  channel = refl;
  subtopic = refl;
  kind = inl refl;
}

module _ (from_string : Bytes → Result Bytes) (cache : TopicCache) where
  open cache use {Store, get, put, get-put}

  -- The cache after a sequence of calls.
  unfoldable pub run : Store → List Call → Store
  run c [] = c
  run c (call ∷ calls) = run (publish from_string cache c call.dir call.topic call.wanted).1 calls

  refused-SameAnswer :
      (c : Store) (dir : Directory) (t : Bytes) (wanted : Bool) (v : ParsedTopic)
      → parse_publish_topic t ≡ err v.error
      → v.domain ≡ []
      → v.channel ≡ []
      → v.subtopic ≡ []
      → SameAnswer (from_entry v) (publish_miss from_string cache c dir t wanted).0
  unfolding publish_miss after_parse
  refused-SameAnswer c dir t wanted v e d ch s = rw e (record {
    error = refl;
    topic = λ n. absurd (nil_error v.error n (parse_publish_topic-not_nil t v.error e));
    domain = d;
    channel = ch;
    subtopic = s;
    kind = inr (parse_publish_topic-not_nil t v.error e, refl, refl);
  })
    where
      nil_error : (e : Err) → e ≡ nil → is_nil e ≡ false → ⊥
      nil_error e n h = ground arith

  hit-SameAnswer :
      (c : Store) (dir : Directory) (t : Bytes) (v : ParsedTopic)
      → IsGenuine t v
      → SameAnswer (from_entry v) (publish_miss from_string cache c dir t false).0
  unfolding publish_miss after_parse
  hit-SameAnswer c dir t v (IsGenuine.accepted e parsed) = rw parsed (record {
    error = e;
    topic = λ _. refl;
    domain = refl;
    channel = refl;
    subtopic = refl;
    kind = inl refl;
  })
  hit-SameAnswer c dir t v (IsGenuine.refused e d ch s) =
      refused-SameAnswer c dir t false v e d ch s

  pub hit_ids-SameAnswer :
      (c : Store) (dir : Directory) (t : Bytes) (v : ParsedTopic)
      → IsGenuine t v
      → HoldsIds from_string cache v
      → SameAnswer (from_entry v) (publish_miss from_string cache c dir t true).0
  unfolding publish_miss after_parse
  hit_ids-SameAnswer c dir t v (IsGenuine.refused e d ch s) ids =
      refused-SameAnswer c dir t true v e d ch s
  hit_ids-SameAnswer c dir t v (IsGenuine.accepted e parsed) ids =
      let (domain_ne, channel_ne) = parse_publish_topic-nonempty t _ parsed refl in
      rw parsed (
        rw
          (
            resolve_ids from_string dir v.domain v.channel domain_ne channel_ne (ids e).0 (ids e).1,
            after_resolve,
          )
          (record {
            error = e;
            topic = λ _. refl;
            domain = refl;
            channel = refl;
            subtopic = refl;
            kind = inl refl;
          }))

  run-IsGenuineCache :
      (c : Store) (calls : List Call)
      → IsGenuineCache from_string cache c
      → IsGenuineCache from_string cache (run c calls)
  unfolding run
  run-IsGenuineCache c [] h = h
  run-IsGenuineCache c (call ∷ calls) h =
      run-IsGenuineCache (publish from_string cache c call.dir call.topic call.wanted).1 calls
        (publish-IsGenuineCache from_string cache c call.dir call.topic call.wanted h)

  publish-SameAnswer :
      (c : Store) (dir : Directory) (t : Bytes)
      → IsGenuineCache from_string cache c
      → SameAnswer
          (publish from_string cache c dir t false).0
          (publish_miss from_string cache c dir t false).0
  unfolding publish after_lookup
  publish-SameAnswer c dir t h = elim (Option-cases (get c t)) [
    | inl miss ↦ rw (miss, after_lookup) (SameAnswer-refl _)
    | inr (v, hit) ↦ rw (hit, after_lookup) (hit-SameAnswer c dir t v (h.at t v hit))
  ]

  -- After any calls, resolving or not, a call that does not resolve gives the error, the domain, the
  -- channel and the subtopic that it gives with no entry in the cache, and the same type of the
  -- topic: but a refused topic may have the type of a message, where it is invalid with no entry.
  pub publish_transparent :
      (c : Store) (calls : List Call) (dir : Directory) (t : Bytes)
      → IsGenuineCache from_string cache c
      → SameAnswer
          (publish from_string cache (run c calls) dir t false).0
          (publish_miss from_string cache (run c calls) dir t false).0
  publish_transparent c calls dir t h =
      publish-SameAnswer (run c calls) dir t (run-IsGenuineCache c calls h)

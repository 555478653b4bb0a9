-- ===== src/Messaging/Parser.antt =====
-- The topic resolver and the caching parser of pkg/messaging/topics.go.
-- What is not in the repository comes in as parameters: UUID parsing (gofrs/uuid), the answers of
-- the domains and channels services to RetrieveIDByRoute at the time of a call, and the cache
-- (ristretto), of which only this is taken: a hit returns the entry that was stored last under the
-- key. It may forget entries, and drop a write.
pub mod Resolving
pub mod Laws
pub mod Transparent
pub mod ResolvedCache
use supermq.Common.{
  ◌≡◌, ◌⊎◌, Bool, true, false, ◌&&◌, ◌||◌, not, Option, none, some, [], if◌then◌else◌,
}
use supermq.Errors.{Err, nil, new, Result, ok, err, ◌>>=◌, wrapping}
use supermq.Messaging.Bytes.{Bytes, is_empty, eq_bytes}
use supermq.Messaging.Topic.{
  Topic, TopicType, message, invalid, message_topic, malformed_topic, parse_topic,
  encode_adapter_topic,
}
use supermq.Messaging.Subtopic.{parse_publish_topic, parse_subscribe_topic}

abbrev pub empty_route_id : Err
empty_route_id = new none "empty route or id"

abbrev pub failed_resolve_domain : Err
failed_resolve_domain = new none "failed to resolve domain route"

abbrev pub failed_resolve_channel : Err
failed_resolve_channel = new none "failed to resolve channel route"

-- parsedTopic
pub record ParsedTopic : Type 0 where
  pub domain : Bytes
  pub channel : Bytes
  pub subtopic : Bytes
  pub error : Err

pub record TopicCache : Type 1 where
  pub Store : Type 0
  pub get : Store → Bytes → Option ParsedTopic
  pub put : Store → Bytes → ParsedTopic → Store
  pub get-put :
      (c : Store) (k j : Bytes) (e v : ParsedTopic)
      → get (put c k e) j ≡ some v
      → ((j ≡ k) × (v ≡ e)) ⊎ (get c j ≡ some v)

-- The routes that the domains and the channels service know; a channel's route is looked up in a
-- domain.
pub record Directory : Type 0 where
  pub domain_id : Bytes → Result Bytes
  pub channel_id : Bytes → Bytes → Result Bytes

-- The five values that a parser returns.
pub record Outcome : Type 0 where
  pub topic : Topic
  pub error : Err

abbrev pub no_topic : Topic
no_topic = record { domain = []; channel = []; subtopic = []; kind = invalid }

abbrev pub failed : Err → Outcome
failed e = record { topic = no_topic; error = e }

abbrev pub parsed : Topic → Outcome
parsed p = record { topic = p; error = nil }

-- The results of Resolve: the domain, the channel, and whether one of them was a route.
pub record Resolved : Type 0 where
  pub domain : Bytes
  pub channel : Bytes
  pub is_route : Bool

abbrev pub is_message : TopicType → Bool
is_message message = true
is_message _ = false

-- What a hit returns: always the type of a message.
abbrev pub from_entry : ParsedTopic → Outcome
from_entry v = record { topic = message_topic v.domain v.channel v.subtopic; error = v.error }

abbrev pub put_resolved : Topic → Resolved → Topic
put_resolved p r = record p { domain = r.domain; channel = r.channel }

abbrev pub join_resolved : Bytes × Bool → Bytes × Bool → Resolved
join_resolved d c = record { domain = d.0; channel = c.0; is_route = d.1 || c.1 }

-- The end of resolveDomain and of resolveChannel: an ID stands for itself.
abbrev pub lookup_route : Err → Bytes → Result Bytes → Result (Bytes × Bool)
lookup_route nil id answer = ok (id, false)
lookup_route _ id answer = answer >>= λ found. ok (found, true)

-- `from_string` gives the canonical text of the UUID that it reads.
module _ (from_string : Bytes → Result Bytes) where
  -- validateUUID: in its first branch `err` is nil if only the texts differ.
  unfoldable pub validate_uuid : Bytes → Err
  unfolding eq_bytes
  validate_uuid ext = elim (from_string ext) [
    | ok id ↦ if not (eq_bytes id ext) then nil else nil
    | err e ↦ e
  ]

  -- resolveDomain
  unfoldable pub resolve_domain : Directory → Bytes → Result (Bytes × Bool)
  unfolding validate_uuid
  resolve_domain dir domain = lookup_route (validate_uuid domain) domain (dir.domain_id domain)

  -- resolveChannel
  unfoldable pub resolve_channel : Directory → Bytes → Bytes → Result (Bytes × Bool)
  unfolding validate_uuid
  resolve_channel dir channel domain =
      lookup_route (validate_uuid channel) channel (dir.channel_id channel domain)

  -- Resolve once the domain is resolved
  unfoldable pub resolve_rest : Directory → Bytes → Bytes × Bool → Result Resolved
  unfolding resolve_channel
  resolve_rest dir channel d =
      if is_empty channel
      then ok (record { domain = d.0; channel = []; is_route = d.1 })
      else (wrapping failed_resolve_channel (resolve_channel dir channel d.0) >>= λ c.
          ok (join_resolved d c))

  -- Resolve
  unfoldable pub resolve : Directory → Bytes → Bytes → Result Resolved
  unfolding resolve_domain resolve_rest
  resolve dir domain channel =
      if is_empty domain
      then err empty_route_id
      else (wrapping failed_resolve_domain (resolve_domain dir domain) >>= resolve_rest dir channel)

  -- ResolveTopic
  unfoldable pub resolve_topic : Directory → Bytes → Result Bytes
  unfolding resolve parse_topic encode_adapter_topic
  resolve_topic dir topic = wrapping malformed_topic (parse_topic topic) >>= λ p.
      resolve dir p.domain p.channel >>= λ r.
      ok (encode_adapter_topic (record p { domain = r.domain; channel = r.channel }))

  -- `if resolve { … }` of both parsers; without it `isRoute` is false.
  abbrev pub resolve_if : Directory → Bool → Topic → Result Resolved
  resolve_if dir true p = resolve dir p.domain p.channel
  resolve_if dir false p = ok (record { domain = p.domain; channel = p.channel; is_route = false })

  -- parser.ParseSubscribeTopic, which has no cache
  unfoldable pub subscribe : Directory → Bytes → Bool → Outcome
  unfolding resolve parse_subscribe_topic
  subscribe dir topic wanted = elim (parse_subscribe_topic topic) [
    | err e ↦ failed e
    | ok p ↦ elim (resolve_if dir wanted p) [ err e ↦ failed e | ok r ↦ parsed (put_resolved p r) ]
  ]

  module _ (cache : TopicCache) where
    open cache use {Store, get, put}

    -- saveToCache
    abbrev pub save_to_cache : Store → Bytes → Bytes → Bytes → Bytes → Err → Store
    save_to_cache c topic d ch s e =
        put c topic (record { domain = d; channel = ch; subtopic = s; error = e })

    -- The end of ParsePublishTopic: topics with a route, and health topics, are not stored.
    abbrev pub store_and_return : Store → Bytes → Topic → Resolved → Outcome × Store
    store_and_return c topic p r = (
      parsed (put_resolved p r),
      if not r.is_route && is_message p.kind
          then save_to_cache c topic r.domain r.channel p.subtopic nil
          else c,
    )

    -- After the resolution, of which an error is not stored.
    abbrev pub after_resolve : Store → Bytes → Topic → Result Resolved → Outcome × Store
    after_resolve c topic p (err e) = (failed e, c)
    after_resolve c topic p (ok r) = store_and_return c topic p r

    -- After the parsing, of which an error is stored.
    unfoldable pub after_parse : Store → Directory → Bytes → Bool → Result Topic → Outcome × Store
    unfolding resolve
    after_parse c dir topic wanted (err e) = (failed e, save_to_cache c topic [] [] [] e)
    after_parse c dir topic wanted (ok p) = after_resolve c topic p (resolve_if dir wanted p)

    -- parser.ParsePublishTopic after a miss
    unfoldable pub publish_miss : Store → Directory → Bytes → Bool → Outcome × Store
    unfolding after_parse parse_publish_topic
    publish_miss c dir topic wanted = after_parse c dir topic wanted (parse_publish_topic topic)

    -- The test of the lookup in the cache
    unfoldable pub after_lookup :
        Store → Directory → Bytes → Bool → Option ParsedTopic → Outcome × Store
    unfolding publish_miss
    after_lookup c dir topic wanted (some v) = (from_entry v, c)
    after_lookup c dir topic wanted none = publish_miss c dir topic wanted

    -- parser.ParsePublishTopic
    unfoldable pub publish : Store → Directory → Bytes → Bool → Outcome × Store
    unfolding after_lookup
    publish c dir topic wanted = after_lookup c dir topic wanted (get c topic)

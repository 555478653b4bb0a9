-- ===== src/Messaging/Parser/Resolving.antt =====
-- What the resolver makes of IDs and of routes.
use supermq.Common.{◌≡◌, ◌≢◌, refl, ◌∙◌, Bool, false, [], ◌∷◌, arith}
use supermq.Errors.{Err, nil, Result, ok}
use supermq.Errors.Bind.{wrapping->>=-eq-ok}
use supermq.Messaging.Bytes.{Bytes}
use supermq.Messaging.Parser.{
  Directory, Resolved, join_resolved, lookup_route, resolve_rest, validate_uuid, resolve_domain,
  resolve_channel, resolve, failed_resolve_domain, failed_resolve_channel,
}

lookup_route_id :
    (e : Err) (id : Bytes) (x : Bytes × Bool) (answer : Result Bytes)
    → lookup_route e id answer ≡ ok x
    → x.1 ≡ false
    → (e ≡ nil) × (x.0 ≡ id)
lookup_route_id nil id x answer h n = ground arith
lookup_route_id (Err.foreign m) id x answer h n = ground arith
lookup_route_id (Err.plain m i) id x answer h n = ground arith
lookup_route_id (Err.typed k m i) id x answer h n = ground arith

module _ (from_string : Bytes → Result Bytes) where
  -- A text that parses as a UUID, in whatever spelling.
  abbrev pub IsId : Bytes → Type 0
  IsId s = validate_uuid from_string s ≡ nil

  pub record IsResolvedId (domain channel : Bytes) (r : Resolved) : Type 0 where
    pub domain_id : IsId domain
    pub same_domain : r.domain ≡ domain
    pub same_channel : r.channel ≡ channel
    pub channel_id : channel ≢ [] → IsId channel

  resolve_rest_no_route :
      (dir : Directory) (channel : Bytes) (d : Bytes × Bool) (r : Resolved)
      → resolve_rest from_string dir channel d ≡ ok r
      → r.is_route ≡ false
      → (d.1 ≡ false) × (r.domain ≡ d.0) × (r.channel ≡ channel) × (channel ≢ [] → IsId channel)
  unfolding resolve_rest resolve_channel
  resolve_rest_no_route dir [] d r h n =
      (ground arith, ground arith, ground arith, λ ne. absurd (ne refl))
  resolve_rest_no_route dir (c ∷ channel) d r h n =
      let (x, found, e) =
        wrapping->>=-eq-ok failed_resolve_channel
          (resolve_channel from_string dir (c ∷ channel) d.0) (λ c. ok (join_resolved d c)) h in
      let q : (d.1 ≡ false) × (x.1 ≡ false) × (r.domain ≡ d.0) × (r.channel ≡ x.0) = ground arith in
      let (id, same) =
        lookup_route_id (validate_uuid from_string (c ∷ channel)) (c ∷ channel) x
          (dir.channel_id (c ∷ channel) d.0) found q.1 in
      (q.0, q.2, q.3 ∙ same, λ _. id)

  -- If nothing was a route, both parts were IDs and come back as they were.
  pub resolve_no_route :
      (dir : Directory) (domain channel : Bytes) (r : Resolved)
      → resolve from_string dir domain channel ≡ ok r
      → r.is_route ≡ false
      → IsResolvedId domain channel r
  unfolding resolve resolve_domain resolve_channel
  resolve_no_route dir [] channel r h n = ground arith
  resolve_no_route dir (b ∷ domain) channel r h n =
      let (d, found, e) =
        wrapping->>=-eq-ok failed_resolve_domain (resolve_domain from_string dir (b ∷ domain))
          (resolve_rest from_string dir channel) h in
      let (flag, same, same_channel, id) = resolve_rest_no_route dir channel d r e n in
      let (is_id, same_domain) =
        lookup_route_id (validate_uuid from_string (b ∷ domain)) (b ∷ domain) d
          (dir.domain_id (b ∷ domain)) found flag in
      record {
        domain_id = is_id;
        same_domain = same ∙ same_domain;
        same_channel = same_channel;
        channel_id = id;
      }

  -- IDs resolve to themselves, whatever the services answer.
  pub resolve_ids :
      (dir : Directory) (domain channel : Bytes)
      → domain ≢ []
      → channel ≢ []
      → IsId domain
      → IsId channel
      → resolve from_string dir domain channel
        ≡ ok (record { domain = domain; channel = channel; is_route = false })
  unfolding resolve resolve_domain resolve_rest resolve_channel
  resolve_ids dir [] channel n m h g = absurd (n refl)
  resolve_ids dir (b ∷ domain) [] n m h g = absurd (m refl)
  resolve_ids dir (b ∷ domain) (c ∷ channel) n m h g = rw (h, g)

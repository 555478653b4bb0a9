-- ===== src/Clients/Packed.antt =====
-- What Authenticate of clients/private/service.go answers to a token of AuthPack.
use text.Mathlib.Text.{◌==◌}
use text.Mathlib.TextEquality.{eq_iff}
use supermq.Common.{String, ◌≡◌, refl, sym, ap, ◌∙◌, Bool, false, ◌||◌, Bool-cases, inl, inr, none}
use supermq.Errors.{Err, Result, ok, err, wrap}
use supermq.Service.{Action, ◌>>=◌, ◌>>◌, pure, fail_if, or_wrap}
use supermq.Policies.Spicedb.{authorization_error}
use supermq.Messaging.Bytes.{Bytes, Lacks, is_empty}
use supermq.Authn.RoundTrip.{AreBytes}
use supermq.Authn.Packing.{
  AuthPrefix, unknown, basic_auth, domain_auth, auth_unpack, auth_pack, auth_unpack-auth_pack,
}
use supermq.Clients.Cache.{
  Redis, key_entry, id_entry, repo_create_entity, empty_key, cache_id, cache_save,
}
use supermq.Clients.Data.{Client}
use supermq.Clients.Forgetting.{none_some, true-false}
use supermq.Clients.Authenticate.{
  Secrets, bytes_of, admit_client, authenticate_unpacked, authenticate_cached, authenticate,
}
use supermq.Clients.Authenticating.{cache_id-Held}

filled_eq : (p : AuthPrefix) (id key : Bytes) → is_empty (auth_pack p id key) ≡ false
unfolding auth_pack
filled_eq unknown id key = refl
filled_eq basic_auth id key = refl
filled_eq domain_auth id key = refl

packed_filled :
    (token : String) (p : AuthPrefix) (id key : Bytes)
    → bytes_of token ≡ auth_pack p id key
    → (token == "") ≡ false
unfolding bytes_of
packed_filled token p id key packed = elim (Bool-cases (token == "")) [
  | inr e ↦ e
  | inl e ↦ absurd (
      true-false (
        ap (λ s. is_empty (bytes_of s)) (sym ((eq_iff token "").0 e))
        ∙ ap is_empty packed
        ∙ filled_eq p id key))
]

both_succeed :
    {W : Type 0} (end : Result (Unit {0}) × W) (f : Action W (Unit {0})) (e1 e2 : Err) (w : W)
    → end.0 ≡ ok tt
    → ((w1 : W) → (f w1).0 ≡ ok tt)
    → ((or_wrap e1 (λ _. end) >> or_wrap e2 f) w).0 ≡ ok tt
both_succeed (err e, w1) f e1 e2 w h k = cc
both_succeed {W} (ok _, w1) f e1 e2 w h k = succeeds (f w1) (k w1)
  where
    succeeds : (end : Result (Unit {0}) × W) → end.0 ≡ ok tt → (or_wrap e2 (λ _. end) w1).0 ≡ ok tt
    succeeds (ok _, w2) k' = refl
    succeeds (err e, w2) k' = cc

cache_save_succeeds :
    {W : Type 0} (redis : Redis W) (key id : String) (w : W)
    → ((k v : String) (w1 : W) → (redis.set k v w1).0 ≡ ok tt)
    → (key == "") ≡ false
    → (id == "") ≡ false
    → (cache_save redis key id w).0 ≡ ok tt
unfolding cache_save
cache_save_succeeds {W} redis key id w works filled has_id =
    ap (λ b. first_fails (b || (id == ""))) filled
    ∙ ap first_fails has_id
    ∙ both_succeed (redis.set (key_entry key) id w) (redis.set (id_entry id) key) repo_create_entity
        repo_create_entity w (works (key_entry key) id w) (works (id_entry id) key)
  where
    first_fails : Bool → Result (Unit {0})
    first_fails b =
        ((fail_if b (wrap repo_create_entity empty_key)
            >> (or_wrap repo_create_entity (redis.set (key_entry key) id)
                >> or_wrap repo_create_entity (redis.set (id_entry id) key)))
          w).0

-- The ID of the client that the repository finds, or its error.
abbrev pub answer : Result Client → Result String
answer (ok c) = ok c.id
answer (err e) = err (wrap authorization_error e)

module _ {W : Type 0} (secrets : Secrets W) where
  cold :
      (token : String) (w : W) (cached : Result String)
      → cache_id secrets.redis token w ≡ cached
      → secrets.redis.stored w (key_entry token) ≡ none
      → authenticate_cached secrets token cached w
        ≡ authenticate_unpacked secrets token (auth_unpack (bytes_of token)) w
  cold token w (err _) same missing = refl
  cold token w (ok i) same missing =
      absurd (none_some i (sym missing ∙ (cache_id-Held secrets.redis token i w same).1))

  answers_found :
      (token : String) (w : W) (found : Result Client)
      → ((k v : String) (w1 : W) → (secrets.redis.set k v w1).0 ≡ ok tt)
      → (token == "") ≡ false
      → ((c : Client) → found ≡ ok c → (c.id == "") ≡ false)
      → ((or_wrap authorization_error (λ w'. (found, w')) >>= admit_client secrets token) w).0
        ≡ answer found
  answers_found token w (err e) works filled has_id = refl
  answers_found token w (ok c) works filled has_id =
      admitted (cache_save secrets.redis token c.id w)
        (cache_save_succeeds secrets.redis token c.id w works filled (has_id c refl))
    where
      admitted :
          (end : Result (Unit {0}) × W)
          → end.0 ≡ ok tt
          → ((or_wrap authorization_error (λ _. end) >> pure c.id) w).0 ≡ ok c.id
      admitted (ok _, w1) h = refl
      admitted (err e, w1) h = cc

  -- Authenticate of a token that AuthPack makes of an ID without a colon and a key, which the cache
  -- does not have, answers as the repository does for the key, the ID and the prefix: with the ID of
  -- the client or with the error, wrapped; if every SET of Redis succeeds.
  pub authenticate-auth_pack :
      (token : String) (p : AuthPrefix) (id key : Bytes) (w : W)
      → ((k v : String) (w1 : W) → (secrets.redis.set k v w1).0 ≡ ok tt)
      → bytes_of token ≡ auth_pack p id key
      → AreBytes id
      → AreBytes key
      → Lacks b':' id
      → secrets.redis.stored w (key_entry token) ≡ none
      → (authenticate secrets token w).0 ≡ answer (secrets.retrieve_by_secret key id p w)
  unfolding authenticate
  authenticate-auth_pack token p id key w works packed is_id is_key lacks missing =
      ap (λ z. z.0) (cold token w (cache_id secrets.redis token w) refl missing)
      ∙ ap (λ u. (authenticate_unpacked secrets token u w).0)
          (ap auth_unpack packed ∙ auth_unpack-auth_pack p id key is_id is_key lacks)
      ∙ answers_found token w (secrets.retrieve_by_secret key id p w) works
          (packed_filled token p id key packed) (secrets.has_id key id p w)

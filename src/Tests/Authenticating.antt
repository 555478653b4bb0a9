-- ===== src/Tests/Authenticating.antt =====
-- Authenticate of clients/private/service.go on the token of one client.
use supermq.Common.{String, ◌≡◌, ◌≢◌, refl, Bool, true, false, ◌&&◌, [], ◌∷◌, if◌then◌else◌, arith}
use supermq.Errors.{Err, foreign, Result, ok, err}
use supermq.Messaging.Bytes.{Bytes, eq_bytes}
use supermq.Authn.Packing.{basic_auth, auth_unpack, auth_pack}
use supermq.Clients.Cache.{value, broken, cache_id, cache_save}
use supermq.Clients.Data.{Client, no_client}
use supermq.Clients.Authenticate.{Secrets, bytes_of, authenticate}
use supermq.Clients.Authenticating.{authenticate_again}
use supermq.Clients.Packed.{answer, authenticate-auth_pack}
use supermq.Tests.Clients.{World, function_redis, empty_world}
use text.Mathlib.Text.{◌==◌}

abbrev k1 : Bytes
k1 = b'k' ∷ b'1' ∷ []

abbrev s1 : Bytes
s1 = b's' ∷ b'1' ∷ []

-- The row of the client k1 with the secret s1.
abbrev row : Bool → Result Client
row test = if test then ok (record no_client { id = "k1" }) else err (foreign "no rows")

row_has_id : (test : Bool) (c : Client) → row test ≡ ok c → (c.id == "") ≡ false
row_has_id true c h = same_filled (record no_client { id = "k1" }) c h refl
  where
    same_filled :
        (d c : Client)
        → ◌≡◌ {A = Result Client} (ok d) (ok c)
        → (d.id == "") ≡ false
        → (c.id == "") ≡ false
    same_filled d c h e = cc
row_has_id false c h = cc

abbrev one_secret : Secrets World
one_secret = record {
  redis = function_redis;
  retrieve_by_secret = λ key id p w. row (eq_bytes key s1 && eq_bytes id k1);
  has_id = λ key id p w c h. row_has_id (eq_bytes key s1 && eq_bytes id k1) c h;
}

-- The token of AuthPack for the two.
abbrev token : String
token = "BasicazE6czE="

token_packed : bytes_of token ≡ auth_pack basic_auth k1 s1
unfolding bytes_of auth_pack
token_packed = refl

authenticate-auth_pack_example :
    (authenticate one_secret token empty_world).0
    ≡ answer (one_secret.retrieve_by_secret s1 k1 basic_auth empty_world)
authenticate-auth_pack_example =
    authenticate-auth_pack one_secret token basic_auth k1 s1 empty_world (λ k v w. refl)
      token_packed (omega arith, (omega arith, tt)) (omega arith, (omega arith, tt))
      ((λ h. absurd (omega arith)), ((λ h. absurd (omega arith)), tt)) refl

-- The world after the token was accepted, and later without any relationship.
abbrev later : World
later = (authenticate one_secret token empty_world).1

accepted : authenticate one_secret token empty_world ≡ (ok "k1", later)
unfolding authenticate auth_unpack cache_id cache_save eq_bytes
accepted = refl

value-broken : (v : String) (e : Err) → value v ≢ broken e
value-broken v e h = cc

answers : (e : Err) → one_secret.redis.get "client_key:BasicazE6czE=" later ≢ broken e
unfolding authenticate auth_unpack cache_id cache_save eq_bytes
answers e = value-broken "k1" e

authenticate_again_example :
    authenticate one_secret token (record later { relationships = λ r. false })
    ≡ (ok "k1", record later { relationships = λ r. false })
authenticate_again_example =
    authenticate_again one_secret token "k1" empty_world later
      (record later { relationships = λ r. false }) accepted refl answers

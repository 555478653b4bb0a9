-- ===== src/Clients/Authenticate.antt =====
-- Authenticate of clients/private/service.go.
use text.Mathlib.Text.{◌==◌}
use Prim.Native.Char.{code}
use Prim.Native.String.{[] as empty, ◌∷◌ as followed}
use supermq.Common.{
  ℕ, String, ◌≡◌, ◌+◌, ◌/◌, ◌%◌, Bool, false, ◌||◌, [], ◌∷◌, ◌++◌, ltb, if◌then◌else◌,
}
use supermq.Errors.{Err, plain, nil, is_nil, Result, ok, err}
use supermq.Service.{Action, ◌>>=◌, ◌>>◌, pure, fail, read, or_wrap}
use supermq.Policies.Spicedb.{authorization_error}
use supermq.Messaging.Bytes.{Bytes}
use supermq.Authn.Packing.{AuthPrefix, Unpacked, auth_unpack}
use supermq.Clients.Cache.{Redis, cache_id, cache_save}
use supermq.Clients.Data.{Client}

-- The bytes of a character in UTF-8.
abbrev pub char_bytes : ℕ → Bytes
char_bytes n =
    if ltb n 0x80
    then n ∷ []
    else if ltb n 0x800
    then (0xc0 + n / 64) ∷ (0x80 + n % 64) ∷ []
    else if ltb n 0x10000
    then (0xe0 + n / 4096) ∷ (0x80 + n / 64 % 64) ∷ (0x80 + n % 64) ∷ []
    else (0xf0 + n / 262144) ∷ (0x80 + n / 4096 % 64) ∷ (0x80 + n / 64 % 64) ∷ (0x80 + n % 64) ∷ []

-- The bytes of a token, which gRPC hands over as valid UTF-8.
unfoldable pub bytes_of : String → Bytes
bytes_of empty = []
bytes_of (followed c s) = char_bytes (code c) ++ bytes_of s

-- What the service stands over: the cache, and `RetrieveBySecret(key, id, prefix)` of the
-- repository, whose rows have an ID.
pub record Secrets (W : Type 0) : Type 0 where
  pub redis : Redis W
  pub retrieve_by_secret : Bytes → Bytes → AuthPrefix → W → Result Client
  pub has_id :
      (key id : Bytes) (p : AuthPrefix) (w : W) (c : Client)
      → retrieve_by_secret key id p w ≡ ok c
      → (c.id == "") ≡ false

-- `err == authn.ErrNotEncoded`, for an error of AuthUnpack: it has no other with this text.
abbrev pub is_not_encoded : Err → Bool
is_not_encoded (plain m nil) = m == "token is not encoded with suffix"
is_not_encoded _ = false

module _ {W : Type 0} (secrets : Secrets W) where
  -- Authenticate once a client is found.
  abbrev pub admit_client : String → Client → Action W String
  admit_client token c =
      or_wrap authorization_error (cache_save secrets.redis token c.id) >> pure c.id

  -- Authenticate once the token is unpacked.
  abbrev pub authenticate_unpacked : String → Unpacked → Action W String
  authenticate_unpacked token u =
      if is_nil u.error || is_not_encoded u.error
      then or_wrap authorization_error (read (secrets.retrieve_by_secret u.key u.id u.prefix))
        >>= admit_client token
      else fail u.error

  -- Authenticate, given what the cache answers.
  abbrev pub authenticate_cached : String → Result String → Action W String
  authenticate_cached token (ok id) = pure id
  authenticate_cached token (err _) = authenticate_unpacked token (auth_unpack (bytes_of token))

  -- Authenticate
  unfoldable pub authenticate : String → Action W String
  unfolding bytes_of
  authenticate token w = authenticate_cached token (cache_id secrets.redis token w) w

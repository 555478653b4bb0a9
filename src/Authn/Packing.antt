-- ===== src/Authn/Packing.antt =====
-- AuthPack and AuthUnpack of pkg/authn/authn.go.
use supermq.Common.{
  ◌≡◌, refl, ap, ◌∙◌, ◌<◌, arith, Option, none, some, List, [], ◌∷◌, ◌++◌, All-append,
  if◌then◌else◌, ◌==◌, ==_iff, Bool-cases, inl, inr,
}
use supermq.Errors.{Err, nil, new, foreign}
use supermq.Messaging.Bytes.{Bytes, Lacks}
use supermq.Authn.Base64.{encode, decode}
use supermq.Authn.RoundTrip.{AreBytes, decode-encode}

-- AuthPrefix, by its three constants.
pub data AuthPrefix : Type 0 where
  unknown : AuthPrefix
  basic_auth : AuthPrefix
  domain_auth : AuthPrefix

-- `String()`, and authPrefixStrings.
abbrev pub prefix_text : AuthPrefix → Bytes
prefix_text unknown = b'U' ∷ b'n' ∷ b'k' ∷ b'n' ∷ b'o' ∷ b'w' ∷ b'n' ∷ []
prefix_text basic_auth = b'B' ∷ b'a' ∷ b's' ∷ b'i' ∷ b'c' ∷ []
prefix_text domain_auth = b'D' ∷ b'o' ∷ b'm' ∷ b'a' ∷ b'i' ∷ b'n' ∷ []

abbrev pub not_encoded : Err
not_encoded = new none "token is not encoded with suffix"

-- The decoder's error, less the position that its text names.
abbrev pub corrupt_input : Err
corrupt_input = foreign "illegal base64 data"

-- What AuthUnpack returns: all of its values, also with an error.
pub record Unpacked : Type 0 where
  pub prefix : AuthPrefix
  pub id : Bytes
  pub key : Bytes
  pub error : Err

-- strings.HasPrefix, and the rest of the string.
abbrev pub after_prefix : Bytes → Bytes → Option Bytes
after_prefix [] s = some s
after_prefix (a ∷ p) [] = none
after_prefix (a ∷ p) (b ∷ s) = if a == b then after_prefix p s else none

-- The loop over the prefixes, in the order of authPrefixStrings.
abbrev pub prefix_from : List AuthPrefix → Bytes → AuthPrefix × Bytes
prefix_from [] token = (unknown, token)
prefix_from (p ∷ ps) token = elim (after_prefix (prefix_text p) token) [
  | some rest ↦ (p, rest)
  | none ↦ prefix_from ps token
]

abbrev pub prefix_of : Bytes → AuthPrefix × Bytes
prefix_of = prefix_from (unknown ∷ basic_auth ∷ domain_auth ∷ [])

-- strings.Cut at the colon: what is before it and after it, or none without one.
unfoldable pub cut : Bytes → Option (Bytes × Bytes)
cut [] = none
cut (c ∷ s) =
    let rest = cut s in
    if c == b':'
    then some ([], s)
    else elim rest [ none ↦ none | some (before, after) ↦ some (c ∷ before, after) ]

-- The end of AuthUnpack for a payload.
abbrev pub unpack_payload : AuthPrefix → Bytes → Unpacked
unpack_payload p payload = elim (cut payload) [
  | none ↦ record { prefix = p; id = payload; key = []; error = not_encoded }
  | some (id, key) ↦ record { prefix = p; id = id; key = key; error = nil }
]

-- AuthUnpack once the prefix is taken off.
abbrev pub unpack_rest : AuthPrefix × Bytes → Unpacked
unpack_rest (p, token) = elim (decode token) [
  | none ↦ record { prefix = unknown; id = token; key = []; error = corrupt_input }
  | some payload ↦ unpack_payload p payload
]

-- AuthUnpack
unfoldable pub auth_unpack : Bytes → Unpacked
unfolding decode cut
auth_unpack token = unpack_rest (prefix_of token)

-- AuthPack
unfoldable pub auth_pack : AuthPrefix → Bytes → Bytes → Bytes
unfolding encode
auth_pack p id key = prefix_text p ++ encode (id ++ b':' ∷ key)

cut-append : (id key : Bytes) → Lacks b':' id → cut (id ++ b':' ∷ key) ≡ some (id, key)
unfolding cut
cut-append [] key h = refl
cut-append (c ∷ id) key (ne, h) = elim (Bool-cases (c == b':')) [
  | inl e ↦ absurd (ne ((==_iff c b':').0 e))
  | inr e ↦
      ap
        (λ t. if t then some ([], id ++ b':' ∷ key) else elim (cut (id ++ b':' ∷ key)) [
          | none ↦ none
          | some (before, after) ↦ some (c ∷ before, after)
        ])
        e
      ∙ ap
          (λ (o : Option (Bytes × Bytes)). elim o [
            | none ↦ none
            | some (before, after) ↦ some (c ∷ before, after)
          ])
          (cut-append id key h)
]

prefix-text : (p : AuthPrefix) (s : Bytes) → prefix_of (prefix_text p ++ s) ≡ (p, s)
prefix-text unknown s = refl
prefix-text basic_auth s = refl
prefix-text domain_auth s = refl

-- AuthUnpack gives back the prefix, the ID and the key that AuthPack has packed, without an error,
-- if the ID has no colon.
pub auth_unpack-auth_pack :
    (p : AuthPrefix) (id key : Bytes)
    → AreBytes id
    → AreBytes key
    → Lacks b':' id
    → auth_unpack (auth_pack p id key) ≡ record { prefix = p; id = id; key = key; error = nil }
unfolding auth_unpack auth_pack
auth_unpack-auth_pack p id key is_id is_key lacks =
    ap unpack_rest (prefix-text p (encode (id ++ b':' ∷ key)))
    ∙ ap
        (λ o. elim o [
          | none ↦ record {
            prefix = unknown;
            id = encode (id ++ b':' ∷ key);
            key = [];
            error = corrupt_input;
          }
          | some payload ↦ unpack_payload p payload
        ])
        (decode-encode (id ++ b':' ∷ key)
          (All-append (λ b. b < 256) id (b':' ∷ key) is_id (omega arith, is_key)))
    ∙ ap
        (λ (o : Option (Bytes × Bytes)). elim o [
          | none ↦ record { prefix = p; id = id ++ b':' ∷ key; key = []; error = not_encoded }
          | some (i, k) ↦ record { prefix = p; id = i; key = k; error = nil }
        ])
        (cut-append id key lacks)

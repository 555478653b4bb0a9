-- ===== src/Auth/DomainUsers.antt =====
-- The IDs of users in domains (EncodeDomainUserID and DecodeDomainUserID of auth/service.go).
use supermq.Common.{
  ◌≡◌, refl, ap, ◌∙◌, ℕ, Bool, true, false, ◌||◌, ◌==◌, ==_refl, List, [], ◌∷◌, ◌++◌, if◌then◌else◌,
}
use supermq.Messaging.Bytes.{Bytes, is_empty, split, has_byte}

-- EncodeDomainUserID
unfoldable pub encode_bytes : Bytes → Bytes → Bytes
encode_bytes [] user = []
encode_bytes (d ∷ domain) [] = []
encode_bytes (d ∷ domain) (u ∷ user) = (d ∷ domain) ++ b'_' ∷ u ∷ user

-- The switch of DecodeDomainUserID on the parts.
abbrev pub from_parts : List Bytes → Bytes × Bytes
from_parts (domain ∷ user ∷ []) = (domain, user)
from_parts (domain ∷ []) = (domain, [])
from_parts _ = ([], [])

-- DecodeDomainUserID
unfoldable pub decode_domain_user_id : Bytes → Bytes × Bytes
unfolding split
decode_domain_user_id [] = ([], [])
decode_domain_user_id (c ∷ s) = from_parts (split b'_' (c ∷ s))

or_parts : (a b : Bool) → (a || b) ≡ false → (a ≡ false) × (b ≡ false)
or_parts false b h = (refl, h)
or_parts true b h = cc

split-none : (sep : ℕ) (s : Bytes) → has_byte sep s ≡ false → split sep s ≡ s ∷ []
unfolding split has_byte
split-none sep [] h = refl
split-none sep (c ∷ s) h =
    let (other, none_left) = or_parts (c == sep) (has_byte sep s) h in
    rw (other, split-none sep s none_left) refl

split-append :
    (sep : ℕ) (s t : Bytes) → has_byte sep s ≡ false → split sep (s ++ sep ∷ t) ≡ s ∷ split sep t
unfolding split has_byte
split-append sep [] t h = rw (==_refl sep) refl
split-append sep (c ∷ s) t h =
    let (other, none_left) = or_parts (c == sep) (has_byte sep s) h in
    rw (other, split-append sep s t none_left) refl

-- A domain and a user without an underscore are read back from their ID, as two empty texts if one
-- of them is empty.
pub decode_domain_user_id-encode_bytes :
    (domain user : Bytes)
    → has_byte b'_' domain ≡ false
    → has_byte b'_' user ≡ false
    → decode_domain_user_id (encode_bytes domain user)
      ≡ (if is_empty domain || is_empty user then ([], []) else (domain, user))
unfolding encode_bytes decode_domain_user_id
decode_domain_user_id-encode_bytes [] user h k = refl
decode_domain_user_id-encode_bytes (d ∷ domain) [] h k = refl
decode_domain_user_id-encode_bytes (d ∷ domain) (u ∷ user) h k = ap from_parts (
    split-append b'_' (d ∷ domain) (u ∷ user) h
    ∙ ap (λ l. (d ∷ domain) ∷ l) (split-none b'_' (u ∷ user) k))

-- ===== src/Tests/Scopes.antt =====
-- The theorems on auth/pat.go and auth/service.go at concrete scopes and IDs.
use supermq.Common.{◌≡◌, ◌↔◌, refl, true, [], ◌∷◌, ◌||◌, if◌then◌else◌}
use supermq.Messaging.Bytes.{is_empty, has_byte}
use supermq.Auth.{Scope, clients, authorized}
use supermq.Auth.Scopes.{Grants, authorized_iff}
use supermq.Auth.DomainUsers.{
  encode_bytes, decode_domain_user_id, decode_domain_user_id-encode_bytes,
}

abbrev create_anywhere : Scope
create_anywhere = record {
  id = "s1";
  pat_id = "p1";
  domain_id = "";
  entity_type = clients;
  entity_id = "*";
  operation = "create";
}

authorized_example :
    (authorized create_anywhere clients "d1" "create" "c1" ≡ true)
    ↔ Grants create_anywhere clients "d1" "create" "c1"
authorized_example = authorized_iff create_anywhere clients "d1" "create" "c1"

decode_domain_user_id_example :
    decode_domain_user_id (encode_bytes (b'd' ∷ b'1' ∷ []) (b'u' ∷ [])) ≡ (
      if is_empty (b'd' ∷ b'1' ∷ []) || is_empty (b'u' ∷ [])
      then ([], [])
      else (b'd' ∷ b'1' ∷ [], b'u' ∷ []))
unfolding has_byte
decode_domain_user_id_example =
    decode_domain_user_id-encode_bytes (b'd' ∷ b'1' ∷ []) (b'u' ∷ []) refl refl

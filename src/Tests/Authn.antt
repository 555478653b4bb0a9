-- ===== src/Tests/Authn.antt =====
-- A token of pkg/authn/authn.go.
use supermq.Common.{◌≡◌, [], ◌∷◌, arith}
use supermq.Errors.{nil}
use supermq.Authn.Packing.{basic_auth, auth_pack, auth_unpack, auth_unpack-auth_pack}

auth_unpack_example :
    auth_unpack (auth_pack basic_auth (b'k' ∷ b'1' ∷ []) (b's' ∷ b'1' ∷ b':' ∷ [])) ≡ record {
      prefix = basic_auth;
      id = b'k' ∷ b'1' ∷ [];
      key = b's' ∷ b'1' ∷ b':' ∷ [];
      error = nil;
    }
auth_unpack_example =
    auth_unpack-auth_pack basic_auth (b'k' ∷ b'1' ∷ []) (b's' ∷ b'1' ∷ b':' ∷ [])
      (omega arith, (omega arith, tt)) (omega arith, (omega arith, (omega arith, tt)))
      ((λ h. absurd (omega arith)), ((λ h. absurd (omega arith)), tt))

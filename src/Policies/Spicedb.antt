-- ===== src/Policies/Spicedb.antt =====
-- The policy service over SpiceDB, pkg/policies/spicedb/service.go. SpiceDB's client is the record
-- `SpiceDb`; this file has the errors that its calls end in.
pub mod Data
pub mod Preconditions
pub mod Validation
pub mod Writes
pub mod Refines
pub mod Between
pub mod Collected
pub mod Guards
pub mod Lookups
pub mod Listing
pub mod Paging
use Prim.Native.String.{◌++◌ as join}
use text.Mathlib.Text.{◌==◌}
use supermq.Common.{String, ◌⊎◌, inl, inr, none, some, if◌then◌else◌}
use supermq.Errors.{Err, nil, new, foreign, wrap, request, authn, authz, not_found, Result, ok, err}

-- The codes of gRPC that the service tells apart; another one is known by its name.
pub data Code : Type 0 where
  ok_code : Code
  invalid_argument : Code
  missing : Code
  already_exists : Code
  permission_denied : Code
  failed_precondition : Code
  internal : Code
  unauthenticated : Code
  other : String → Code

-- The error of a call: a gRPC status, or an error that is none.
pub data CallError : Type 0 where
  status : Code → String → CallError
  no_status : Err → CallError

abbrev pub Reply : Type 0 → Type 0
Reply A = CallError ⊎ A

abbrev pub repo_not_found : Err
repo_not_found = new (some not_found) "entity not found"

abbrev pub repo_conflict : Err
repo_conflict = new none "entity already exists"

abbrev pub malformed_request : Err
malformed_request = new (some request) "malformed entity specification"

abbrev pub authentication : Err
authentication = new (some authn) "failed to perform authentication over the entity"

abbrev pub authorization_error : Err
authorization_error = new (some authz) "failed to perform authorization over the entity"

abbrev pub unidentified : Err
unidentified = new none "unidentified error"

abbrev pub internal_error : Err
internal_error = new none "spicedb internal error"

-- convertGRPCStatusToError
unfoldable pub convert_grpc_status_to_error : Code → String → Err
convert_grpc_status_to_error missing msg = wrap repo_not_found (new none msg)
convert_grpc_status_to_error invalid_argument msg = wrap malformed_request (new none msg)
convert_grpc_status_to_error already_exists msg = wrap repo_conflict (new none msg)
convert_grpc_status_to_error unauthenticated msg = wrap authentication (new none msg)
convert_grpc_status_to_error internal msg = wrap internal_error (new none msg)
convert_grpc_status_to_error ok_code msg =
    if msg == "" then nil else wrap unidentified (new none msg)
convert_grpc_status_to_error failed_precondition msg = wrap malformed_request (new none msg)
convert_grpc_status_to_error permission_denied msg = wrap authorization_error (new none msg)
convert_grpc_status_to_error (other name) msg =
    wrap
      (foreign
        (join "unexpected gRPC status: " (join name (join " (status code:" (join name ")")))))
      (new none msg)

-- handleSpicedbError
unfoldable pub handle_spicedb_error : CallError → Err
unfolding convert_grpc_status_to_error
handle_spicedb_error (status code msg) = convert_grpc_status_to_error code msg
handle_spicedb_error (no_status e) = e

-- `if err != nil { return errors.Wrap(e, handleSpicedbError(err)) }`
abbrev pub or_handled : {A : Type 0} → Err → Reply A → Result A
or_handled e (inl c) = err (wrap e (handle_spicedb_error c))
or_handled e (inr a) = ok a

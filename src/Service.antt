-- ===== src/Service.antt =====
-- What the service modules share: calls that read and change the world (the databases, the policy
-- store, the clock, the ID generator), undoing on failure, and the errors of pkg/errors/service.
pub mod Laws
use supermq.Common.{String, Bool, true, false, some, none, if◌then◌else◌}
use supermq.Errors.{
  Err, new, service, request, not_found, authn, authz, wrap, Result, ok, err, wrapping, contains,
}

-- A call: what it returns, and the world after it, also after an error.
abbrev pub Action : Type 0 → Type 0 → Type 0
Action W A = W → Result A × W

-- A step of a sequence of calls, each of which returns early on an error.
infixl 5 ◌>>=◌ ◌>>◌
abbrev pub ◌>>=◌ : {W A B : Type 0} → Action W A → (A → Action W B) → Action W B
◌>>=◌ m f w = let (r, w') = m w in elim r [ err e ↦ (err e, w') | ok a ↦ f a w' ]

abbrev pub ◌>>◌ : {W A B : Type 0} → Action W A → Action W B → Action W B
m >> k = m >>= λ _. k

abbrev pub pure : {W A : Type 0} → A → Action W A
pure a w = (ok a, w)

abbrev pub fail : {W A : Type 0} → Err → Action W A
fail e w = (err e, w)

abbrev pub fail_if : {W : Type 0} → Bool → Err → Action W (Unit {0})
fail_if test e w = (if test then err e else ok tt, w)

-- A call that only reads.
abbrev pub read : {W A : Type 0} → (W → Result A) → Action W A
read f w = (f w, w)

abbrev pub gets : {W A : Type 0} → (W → A) → Action W A
gets f w = (ok (f w), w)

-- `if err != nil { return …, errors.Wrap(e, err) }`
abbrev pub or_wrap : {W A : Type 0} → Err → Action W A → Action W A
or_wrap e m w = let (r, w') = m w in (wrapping e r, w')

-- The error of a failed call whose rollback was tried.
abbrev pub after_rollback : {A : Type 0} → Err → Err → Result (Unit {0}) → Result A
after_rollback e rollback_error (ok _) = err e
after_rollback e rollback_error (err e') = err (wrap e (wrap rollback_error e'))

-- `defer func() { if retErr != nil { if errRollBack := undo(); errRollBack != nil { … } } }()`
-- around the rest of the function.
abbrev pub undoing : {W A : Type 0} → Action W (Unit {0}) → Err → Action W A → Action W A
undoing undo rollback_error rest w =
    let (r, w') = rest w in
    elim r [
      | ok a ↦ (ok a, w')
      | err e ↦ let (u, w'') = undo w' in (after_rollback e rollback_error u, w'')
    ]

abbrev pub create_entity : Err
create_entity = new (some service) "failed to create entity"

abbrev pub remove_entity : Err
remove_entity = new (some service) "failed to remove entity"

abbrev pub view_entity : Err
view_entity = new (some service) "view entity failed"

abbrev pub update_entity : Err
update_entity = new (some service) "update entity failed"

abbrev pub add_policies_error : Err
add_policies_error = new (some service) "failed to add policies"

abbrev pub delete_policies_error : Err
delete_policies_error = new (some service) "failed to remove policies"

abbrev pub malformed_entity : Err
malformed_entity = new none "malformed entity specification"

abbrev pub invalid_status : Err
invalid_status = new (some request) "invalid status"

abbrev pub route_not_available : Err
route_not_available = new (some request) "route not available"

abbrev pub rollback_repo_error : Err
rollback_repo_error = new none "failed to rollback repo"

abbrev pub conflict : Err
conflict = new (some request) "entity already exists"

abbrev pub status_already_assigned : Err
status_already_assigned = new (some service) "status already assigned"

abbrev pub rollback_tx_error : Err
rollback_tx_error = new (some request) "failed to rollback transaction"

-- The error of SaveDomain, and of the Save of channels, clients and groups.
abbrev pub save_error : {A : Type 0} → Result A → Result A
save_error (ok a) = ok a
save_error (err e) =
    err (if contains e route_not_available then route_not_available else wrap create_entity e)

-- ===== src/Tests/Errors.antt =====
-- Error chains of pkg/errors at concrete inputs.
use supermq.Common.{◌≡◌, refl, some}
use supermq.Errors.{Err, service, not_found, new, wrap, error_text}

abbrev missing : Err
missing = wrap (new (some service) "view entity failed") (new (some not_found) "entity not found")

missing_text : error_text missing ≡ "entity not found : view entity failed"
unfolding wrap error_text
missing_text = refl

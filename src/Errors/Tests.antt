-- ===== src/Errors/Tests.antt =====
-- src/services/errors on concrete errors.
use relay_cerebro_infra.Base.{some, none, ◌≡◌, refl}
use relay_cerebro_infra.Errors.{Err, normalize_mikrotik_error, classify_error, auth}

abbrev refused : Err
refused = record { code = none; raw = "Login failure: timeout"; name = "Error" }

refused_login : (classify_error (some (normalize_mikrotik_error (some refused)))).class_of ≡ auth
unfolding normalize_mikrotik_error classify_error
refused_login = refl

-- ===== src/CircuitBreaker/Tests.antt =====
-- Runs of src/services/circuitBreaker.js on concrete calls.
use relay_cerebro_infra.Base.{◌≡◌, refl, ◌≤◌, true, some, String, List, [], ◌∷◌, arith}
use relay_cerebro_infra.Base.Dict.{lookup, insert}
use relay_cerebro_infra.CircuitBreaker.{open_, Entry, default_options, get, allow_request}
use relay_cerebro_infra.CircuitBreaker.Invariant.{
  Call, fails, succeeds, IsValid, step, run, run-IsValid,
}
use relay_cerebro_infra.CircuitBreaker.Trace.{recent_failures, failed_lately, refused_explained}

abbrev burst : List (String × Call)
burst =
    ("r1", succeeds)
    ∷ ("r1", fails 10)
    ∷ ("r1", fails 20)
    ∷ ("r2", fails 25)
    ∷ ("r1", fails 30)
    ∷ ("r1", fails 40)
    ∷ ("r1", fails 50)
    ∷ []

opens_after_five : (get "r1" (run default_options burst [])).state ≡ open_
unfolding run step allow_request get lookup insert
opens_after_five = refl

run-IsValid_example : IsValid default_options (get "r1" (run default_options burst []))
run-IsValid_example = run-IsValid default_options burst "r1" (omega arith)

refused_explained_example :
    (5 ≤ recent_failures "r1" 0 burst) × (failed_lately "r1" 60 60000 burst ≡ true)
unfolding run step allow_request get lookup insert
refused_explained_example = refused_explained default_options 60 "r1" burst (omega arith) refl

abbrev opened_entry : Entry
opened_entry = record { failures = 5; state = open_; opened_at = some 50 }

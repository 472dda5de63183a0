-- ===== src/RouterHealth/Tests.antt =====
-- src/services/routerHealth.js on concrete failures.
use relay_cerebro_infra.Base.{
  ◌+◌, true, false, none, some, [], ◌∷◌, ◌≡◌, refl, arith, leb, if◌then◌else◌,
}
use relay_cerebro_infra.Errors.{auth, transient, Verdict}
use relay_cerebro_infra.RouterHealth.{
  Store, preload_router_health, read, read_error, redis_hash, default_settings, get_health,
  can_attempt, update_router_health,
}
use relay_cerebro_infra.RouterHealth.Shared.{preload-agrees}
use relay_cerebro_infra.RouterHealth.Circuit.{
  after_failures, can_attempt-failures, can_attempt-auth_transient,
}

abbrev timeout_seen : Verdict
timeout_seen = record {
  class_of = transient;
  code = "MIKROTIK_TIMEOUT";
  retryable = true;
  open_circuit_ms = none;
}

abbrev denied : Verdict
denied = record {
  class_of = auth;
  code = "MIKROTIK_AUTH_FAILED";
  retryable = false;
  open_circuit_ms = some 900000;
}

can_attempt-failures_example :
    can_attempt 60000 "r1"
      (after_failures default_settings "r1" timeout_seen (1000 ∷ 2000 ∷ 3000 ∷ 4000 ∷ []) 5000 [])
    ≡ (if leb 5 ((get_health "r1" []).consecutive_fails + 4 + 1) then leb 65000 60000 else true)
can_attempt-failures_example =
    can_attempt-failures default_settings "r1" timeout_seen (1000 ∷ 2000 ∷ 3000 ∷ 4000 ∷ []) 5000
      60000 [] refl refl

can_attempt-auth_transient_example :
    (can_attempt 3000 "r1" (update_router_health default_settings 1000 "r1" denied []) ≡ false)
    × (can_attempt 3000 "r1" (
          update_router_health default_settings 2000 "r1" timeout_seen
            (update_router_health default_settings 1000 "r1" denied []))
        ≡ true)
unfolding get_health
can_attempt-auth_transient_example =
    can_attempt-auth_transient default_settings "r1" denied timeout_seen 1000 2000 3000 900000 []
      refl refl refl refl (omega arith) (omega arith) (omega arith)

-- Two instances after five timeouts that one of them has seen.
abbrev seen_by_one : Store
seen_by_one =
    after_failures default_settings "r1" timeout_seen (1000 ∷ 2000 ∷ 3000 ∷ 4000 ∷ []) 5000 []

preload-agrees_example :
    (can_attempt 6000 "r1" (
        preload_router_health
          (("r1", read (some (redis_hash (get_health "r1" seen_by_one)))) ∷ ("r2", read_error) ∷ [])
          [])
      ≡ can_attempt 6000 "r1" seen_by_one)
    × ((get_health "r1" (
          preload_router_health
            (("r1", read (some (redis_hash (get_health "r1" seen_by_one))))
              ∷ ("r2", read_error)
              ∷ [])
            [])).consecutive_fails
        ≡ (get_health "r1" seen_by_one).consecutive_fails)
preload-agrees_example =
    preload-agrees 6000 "r1" seen_by_one [] (("r2", read_error) ∷ []) (refl, tt)

-- ===== src/IdentityService/Tests.antt =====
-- src/services/identityService.js on a concrete client.
use relay_cerebro_infra.Base.{List, arith, ◌+◌, ◌≤◌, ◌-◌, true, none, some, [], ◌∷◌, ◌≡◌, refl}
use relay_cerebro_infra.Errors.{Err, classify_error}
use relay_cerebro_infra.IdentityStore.{get_pending, get_identity, Identity, Pending, new_pending}
use relay_cerebro_infra.IdentityStore.Actions.{is_applied}
use relay_cerebro_infra.RouterHealth.{can_attempt, default_settings}
use relay_cerebro_infra.Authorize
use relay_cerebro_infra.Authorize.{Nodes, nodes, Session}
use relay_cerebro_infra.Authorize.Commands.{PaidAccess}
use relay_cerebro_infra.IdentityService.Router.{authorize_with, act-never_schedules}
use relay_cerebro_infra.IdentityService.{
  Call, AuthJob, attempt_job, Payload, granted, threw, Services, State, authorization_rescheduled,
  action_key,
}
use relay_cerebro_infra.IdentityService.Refresh.{act, Arrival, refresh_and_authorize}
use relay_cerebro_infra.IdentityService.Retry.{retry_authorize_pending}
use relay_cerebro_infra.IdentityService.Steps.{count}
use relay_cerebro_infra.IdentityService.Bounds.{last, again, retry-bounded}
use relay_cerebro_infra.IdentityService.Applied.{applied_once}
use relay_cerebro_infra.IdentityService.Payment.{IsPaid, refresh-grants}

abbrev order_1 : Pending
order_1 = new_pending 10 "p1" none (some "r1") none 0

abbrev client : Identity
client = record {
  sid = "s1";
  created_at = 1;
  last_seen = none;
  pending = some order_1;
  applied = [];
  updated_at = some 10;
}

abbrev timeout_error : Err
timeout_error = record { code = some "MIKROTIK_TIMEOUT"; raw = "timeout"; name = "Error" }

abbrev granting : Services
granting = record {
  writes = λ w. true;
  write_error = timeout_error;
  has_router = λ r. true;
  authorize = λ calls c. granted;
  date_ms = λ s. none;
  jitter = λ base. 0;
  health_settings = default_settings;
}

abbrev failing : Services
failing = record granting { authorize = λ calls c. threw timeout_error }

abbrev arrival : Arrival
arrival = record {
  sid = "s1";
  ip = some "10.0.0.2";
  mac = some "AA:BB:CC:DD:EE:FF";
  router_hint = some "r1";
  identity = none;
}

abbrev start : State
start = record {
  identities = client ∷ [];
  health = [];
  jobs = [];
  last_prune_at = 1000;
  calls = [];
}

abbrev payload : Payload
payload = record {
  sid = "s1";
  pedido_id = "p1";
  router_id = some "r1";
  router_hint = none;
  identity = none;
  ip = some "10.0.0.2";
  mac = some "AA:BB:CC:DD:EE:FF";
  attempt = 6;
}

failing_retry :
    (retry_authorize_pending failing 2000 payload start).0 ≡ some (authorization_rescheduled 7)
unfolding retry_authorize_pending
failing_retry = refl

abbrev once_more : AuthJob
once_more = attempt_job failing 2000 (record payload { attempt = 7 }) 240000

abbrev rescheduled : State
rescheduled = (retry_authorize_pending failing 2000 payload start).1

retry-bounded_example :
    count (retry_authorize_pending failing 243000 once_more.payload rescheduled).1.calls
    ≤ count start.calls + (8 - 6)
unfolding retry_authorize_pending
retry-bounded_example =
    retry-bounded failing payload start
      (retry_authorize_pending failing 243000 once_more.payload rescheduled).1
      (again 2000 payload start once_more rescheduled _ refl refl
        (last 243000 once_more.payload rescheduled))
      (omega arith)

abbrev done_before : State
done_before = record start {
  identities =
      record client { applied = record { action_key = "r1:p1:AUTHORIZE"; at_ms = 900 } ∷ [] } ∷ [];
}

abbrev hinted_payload : Payload
hinted_payload = record payload { router_hint = some "r1" }

applied_once_example :
    ((refresh_and_authorize granting 2000 arrival done_before).1.calls ≡ [])
    × ((refresh_and_authorize granting 2000 arrival done_before).1.jobs ≡ [])
    × ((retry_authorize_pending granting 2000 hinted_payload done_before).1.calls ≡ [])
    × ((retry_authorize_pending granting 2000 hinted_payload done_before).1.jobs ≡ [])
unfolding get_pending is_applied action_key
applied_once_example =
    applied_once granting 2000 arrival hinted_payload "r1" order_1 done_before refl refl refl refl
      refl refl (omega arith)

refresh-grants_example :
    IsPaid "s1"
      (action_key "r1" "p1")
      (record { pedido_id = "p1"; mik_id = "r1"; ip = "10.0.0.2"; mac = "AA:BB:CC:DD:EE:FF" })
      start
      (refresh_and_authorize granting 2000 arrival start)
unfolding get_identity is_applied action_key can_attempt
refresh-grants_example =
    refresh-grants granting 2000 arrival "r1" "10.0.0.2" "AA:BB:CC:DD:EE:FF" client order_1 start
      (λ w. refl) (omega arith) refl refl refl refl refl (omega arith) (refl, refl, refl)
      (refl, refl) (refl, refl) refl refl refl

abbrev lone_router : Nodes
lone_router = nodes (
    record {
      id = "r1";
      host = some "10.200.1.10";
      ip = none;
      user = some "relay";
      username = none;
      pass = some "x";
      password = none;
    }
    ∷ [])

abbrev defaults : PaidAccess
defaults = record { paid_clients_list = []; paid_binding_type = [] }

abbrev unreachable : List Call → Session
unreachable calls node commands = Authorize.threw timeout_error

abbrev at_router : Services
at_router = record granting {
  authorize = authorize_with unreachable lone_router defaults;
  write_error = record { code = some "ENOSPC"; raw = "no space left"; name = "Error" };
}

abbrev first_call : Call
first_call = record { pedido_id = "p1"; mik_id = "r1"; ip = "10.0.0.2"; mac = "AA:BB:CC:DD:EE:FF" }

act-never_schedules_example : (act at_router 2000 arrival first_call start).1.jobs ≡ []
unfolding can_attempt classify_error
act-never_schedules_example =
    act-never_schedules at_router 2000 arrival unreachable lone_router defaults first_call start
      refl (λ h. absurd (ground arith)) refl

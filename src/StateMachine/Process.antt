-- ===== src/StateMachine/Process.antt =====
-- src/services/stateMachine.js: `processEvent`. The audit trail and the counters are left out. The
-- clock reads `now` up to the call of a service and `later` after it.
use relay_cerebro_infra.Base.{
  ℕ, ◌+◌, ◌*◌, String, Bool, true, false, ◌&&◌, Option, none, some, List, [], ◌∷◌, ◌++◌, ltb,
  str_eq, ◌==◌, or_null, if◌then◌else◌,
}
use relay_cerebro_infra.CircuitBreaker.{Store, default_options, allow_request}
use relay_cerebro_infra.JobStore.{Job, retry_event, revoke_trial, add_job, mark_event_processed}
use relay_cerebro_infra.StateMachine.{
  Field, absent, text, other, is_true, Payload, EventType, trial_requested, release_requested,
  revoke_requested, payment_confirmed, unknown_type, Event, Action, authorize_by_pedido,
  revoke_session, ActionResult, done, failed, threw, Peer, Pending, Services,
}
use relay_cerebro_infra.StateMachine.Validate.{validate}

-- The state that an event can change: the job store, the breaker, and the calls made of other
-- parts, in their order.
pub record Relay : Type 0 where
  pub jobs : List (Job Event)
  pub processed : List String
  pub breaker : Store
  pub ids_drawn : ℕ
  pub actions : List Action
  pub pendings : List Pending

-- The replies: `ok`, `ok: false` with each of the reasons, and `ok: false` without a reason, after a
-- failed action or an exception.
pub data Reply : Type 0 where
  ok invalid circuit_open peer_offline wrong_type exec_failed unhandled : Reply

abbrev pub text_of : Field → Option String
text_of (text s) = some s
text_of absent = none
text_of (other b) = none

-- `a || b`, and `a || null`.
abbrev pub or_else : Field → Field → Field
or_else a b = if is_true a then a else b

-- The breaker's keys are texts; a router of another type, which only an event of an unknown type
-- brings this far, is let through.
unfoldable pub ask_breaker : ℕ → Field → Store → Store × Bool
ask_breaker now (text s) breaker =
    if str_eq s "" then (breaker, true) else allow_request default_options now s breaker
ask_breaker now absent breaker = (breaker, true)
ask_breaker now (other b) breaker = (breaker, true)

abbrev pub find_peer : String → List Peer → Option Peer
find_peer key [] = none
find_peer key (p ∷ peers) = if str_eq p.public_key key then some p else find_peer key peers

abbrev pub older : Option ℕ → ℕ → Bool
older none max = false
older (some age) max = ltb max age

abbrev pub too_long_offline : Option Peer → ℕ → Bool
too_long_offline none max = false
too_long_offline (some p) max = p.offline && older p.handshake_age max

abbrev pub named_peer_offline : Option (List Peer) → ℕ → Option String → Bool
named_peer_offline (some peers) max (some key) =
    if str_eq key "" then false else too_long_offline (find_peer key peers) max
named_peer_offline (some peers) max none = false
named_peer_offline none max key = false

unfoldable pub is_peer_offline : Services → Payload → Bool
is_peer_offline sv p =
    is_true (or_else p.mik_id p.router_id)
    && ltb 0 sv.offline_max_age
    && named_peer_offline sv.peers sv.offline_max_age p.peer_public_key

abbrev pub minutes_or_five : Option ℕ → ℕ
minutes_or_five none = 5
minutes_or_five (some n) = if n == 0 then 5 else n

abbrev pub trial_job : Services → ℕ → String → Payload → Relay → Job Event
trial_job sv now id p r = record {
  id = sv.job_id "trial" r.ids_drawn;
  job_type = revoke_trial;
  event_id = some id;
  run_at = now + minutes_or_five p.trial_minutes * 60 * 1000;
  payload =
      some (record {
        mik_id = text_of p.mik_id;
        mac = text_of p.mac;
        pedido_id = text_of p.pedido_id;
      });
  event = none;
  attempts = none;
  created_at = some now;
}

abbrev pub retry_job : Services → ℕ → Event → ℕ → Job Event
retry_job sv now e n = record {
  id = sv.job_id "retry" n;
  job_type = retry_event;
  event_id = none;
  run_at = now + 30 * 1000;
  payload = none;
  event = some e;
  attempts = some 1;
  created_at = some now;
}

abbrev pub schedule : Job Event → Relay → Relay
unfolding add_job
schedule j r = record r { jobs = add_job j r.jobs; ids_drawn = r.ids_drawn + 1 }

abbrev pub mark : String → Relay → Relay
unfolding mark_event_processed
mark id r = record r { processed = mark_event_processed id r.processed }

-- What follows the call of `executeAction`: its result is a value or an exception.
unfoldable pub settle : Services → ℕ → Event → String → ActionResult → Relay → Relay × Reply
unfolding add_job mark_event_processed
settle sv later e id done r = (mark id r, ok)
settle sv later e id failed r =
    (mark id (schedule (retry_job sv later e r.ids_drawn) r), exec_failed)
settle sv later e id threw r = (mark id (schedule (retry_job sv later e r.ids_drawn) r), unhandled)

unfoldable pub perform : Services → ℕ → Event → String → Action → Relay → Relay × Reply
unfolding settle
perform sv later e id a r =
    settle sv later e id (sv.execute a) (record r { actions = r.actions ++ a ∷ [] })

abbrev pub authorize_action : Payload → Action
authorize_action p = authorize_by_pedido p.pedido_id p.mik_id p.ip p.mac

abbrev pub pending_of : Payload → Pending
pending_of p = record {
  sid = p.sid;
  pedido_id = p.pedido_id;
  plan_id = or_null p.plan_id;
  router_id = or_else p.router_id absent;
  expires_at = or_null p.expires_at;
}

-- The part under "Decide action".
unfoldable pub decide : Services → ℕ → ℕ → Event → String → EventType → Relay → Relay × Reply
unfolding perform settle add_job mark_event_processed
decide sv now later e id trial_requested r =
    perform sv later e id (authorize_action e.payload)
      (schedule (trial_job sv now id e.payload r) r)
decide sv now later e id release_requested r = perform sv later e id (authorize_action e.payload) r
decide sv now later e id revoke_requested r =
    perform sv later e id (revoke_session e.payload.mik_id e.payload.ip e.payload.mac) r
decide sv now later e id payment_confirmed r =
    if sv.can_mark_pending
    then settle sv later e id done (record r { pendings = r.pendings ++ pending_of e.payload ∷ [] })
    else settle sv later e id threw r
decide sv now later e id (unknown_type t) r = (r, wrong_type)

-- The checks of the router, then the action.
unfoldable pub process_valid : Services → ℕ → ℕ → Event → String → EventType → Relay → Relay × Reply
unfolding ask_breaker is_peer_offline decide
process_valid sv now later e id t r =
    let (breaker, allowed) =
      ask_breaker now (or_else e.payload.mik_id e.payload.router_id) r.breaker in
    let r' = record r { breaker = breaker } in
    if allowed
    then (if is_peer_offline sv e.payload
        then (r', peer_offline)
        else decide sv now later e id t r')
    else (r', circuit_open)

abbrev pub process_validated :
    Services → ℕ → ℕ → Event → Option (String × EventType) → Relay → Relay × Reply
unfolding process_valid
process_validated sv now later e none r = (r, invalid)
process_validated sv now later e (some (id, t)) r = process_valid sv now later e id t r

unfoldable pub process_event : Services → ℕ → ℕ → Event → Relay → Relay × Reply
unfolding validate process_valid
process_event sv now later e r = process_validated sv now later e (validate sv.known_router e) r

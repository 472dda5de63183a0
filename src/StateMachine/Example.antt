-- ===== src/StateMachine/Example.antt =====
-- Events, services and a relay with which src/services/stateMachine.js is tried.
use relay_cerebro_infra.Base.{ℕ, String, Bool, true, none, some, [], str_eq}
use relay_cerebro_infra.StateMachine.{
  absent, text, Payload, trial_requested, Event, Action, ActionResult, failed, Services,
}
use relay_cerebro_infra.StateMachine.Process.{Relay}

abbrev pub trial_payload : Payload
trial_payload = record {
  mik_id = text "r1";
  router_id = absent;
  pedido_id = text "p1";
  ip = text "10.0.0.9";
  mac = text "aa:bb:cc:dd:ee:01";
  sid = absent;
  plan_id = none;
  expires_at = none;
  trial_minutes = some 7;
  peer_public_key = none;
}

abbrev pub trial_event : Event
trial_event = record {
  event_id = some "e1";
  event_type = some trial_requested;
  payload = trial_payload;
}

abbrev pub bad_event : Event
bad_event = record trial_event { payload = record trial_payload { mac = text "aa:bb:cc:dd:ee" } }

abbrev pub r1_only : String → Bool
r1_only s = str_eq s "r1"

abbrev pub always : ActionResult → Action → ActionResult
always res a = res

abbrev pub name_job : String → ℕ → String
name_job prefix n = prefix

abbrev pub failing : Services
failing = record {
  known_router = r1_only;
  peers = none;
  offline_max_age = 300;
  execute = always failed;
  can_mark_pending = true;
  job_id = name_job;
}

abbrev pub empty_relay : Relay
empty_relay = record {
  jobs = [];
  processed = [];
  breaker = [];
  ids_drawn = 0;
  actions = [];
  pendings = [];
}

-- ===== src/EventConsumer/Tests.antt =====
-- src/services/eventConsumer.js on concrete events.
use relay_cerebro_infra.Base.{[], ◌≡◌, refl, ◌∷◌}
use relay_cerebro_infra.StateMachine.Process.{process_event}
use relay_cerebro_infra.StateMachine.Breaker.{Arrival}
use relay_cerebro_infra.StateMachine.Example.{trial_event, bad_event, failing, empty_relay}
use relay_cerebro_infra.Base.Dict.{lookup}
use relay_cerebro_infra.CircuitBreaker.{allow_request}
use relay_cerebro_infra.StateMachine.Mac.{is_valid_mac}
use relay_cerebro_infra.EventConsumer.{handle, tick}
use relay_cerebro_infra.EventConsumer.Once.{tick-acts_once}

abbrev once_more : Arrival
once_more = record { services = failing; now = 3000; later = 3001; event = trial_event }

tick-acts_once_example :
    handle once_more (
      tick
        (record once_more { event = bad_event } ∷ [])
        (process_event failing 1000 1200 trial_event empty_relay).0)
    ≡ tick
        (record once_more { event = bad_event } ∷ [])
        (process_event failing 1000 1200 trial_event empty_relay).0
unfolding process_event is_valid_mac allow_request lookup
tick-acts_once_example =
    tick-acts_once failing 1000 1200 trial_event empty_relay
      (record once_more { event = bad_event } ∷ []) once_more refl refl

-- ===== src/EventConsumer.antt =====
-- src/services/eventConsumer.js: what `_tick` does with the events it has fetched. The fetchers, the
-- signature of the backend's answer and the acknowledgement that is sent are left out; a failed
-- acknowledgement is retried and then dropped, and changes nothing here.
mod Once
mod Tests
use relay_cerebro_infra.Base.{
  ℕ, String, Bool, true, false, Option, none, some, List, [], ◌∷◌, ◌&&◌, not, str_eq, truthy,
  if◌then◌else◌,
}
use relay_cerebro_infra.JobStore.{is_event_processed}
use relay_cerebro_infra.StateMachine.{
  Event, EventType, Services, unknown_type, trial_requested, release_requested, revoke_requested,
  payment_confirmed,
}
use relay_cerebro_infra.StateMachine.Process.{Relay, process_event}
use relay_cerebro_infra.StateMachine.Breaker.{Arrival}

abbrev has_type : Option EventType → Bool
has_type none = false
has_type (some t) = true

-- `validateEventShape`, on values whose `eventId` and `type` are texts or missing.
abbrev pub validate_event_shape : Event → Bool
validate_event_shape e = truthy e.event_id && has_type e.event_type

abbrev pub id_of : Option String → String
id_of none = ""
id_of (some id) = id

-- One round of the loop of `_tick`.
unfoldable pub handle : Arrival → Relay → Relay
unfolding process_event is_event_processed
handle a r =
    if validate_event_shape a.event
    then (if is_event_processed (id_of a.event.event_id) r.processed
        then r
        else (process_event a.services a.now a.later a.event r).0)
    else r

unfoldable pub tick : List Arrival → Relay → Relay
tick [] r = r
tick (a ∷ more) r = tick more (handle a r)

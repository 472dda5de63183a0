-- ===== src/EventConsumer/Once.antt =====
-- src/services/eventConsumer.js with src/services/stateMachine.js: how often an event is acted on.
use relay_cerebro_infra.Base.{
  ℕ, String, Bool, true, false, some, List, [], ◌∷◌, ◌≡◌, arith, str_eq_refl, Bool-cases, inl, inr,
  ap, sym, subst,
}
use relay_cerebro_infra.JobStore.{is_event_processed}
use relay_cerebro_infra.JobStore.Laws.{mark_event_processed_sound}
use relay_cerebro_infra.StateMachine.{Event, Services, EventType}
use relay_cerebro_infra.StateMachine.Validate.{validate}
use relay_cerebro_infra.StateMachine.Process.{Relay, process_event}
use relay_cerebro_infra.StateMachine.Outcomes.{
  is_refusal, process_event-refuses_cleanly, process_event-settles,
}
use relay_cerebro_infra.StateMachine.Breaker.{Arrival}
use relay_cerebro_infra.EventConsumer.{id_of, handle, tick}

validate-id :
    (known : String → Bool) (e : Event) (id : String) (t : EventType)
    → validate known e ≡ some (id, t)
    → id_of e.event_id ≡ id
unfolding validate
validate-id known e id t v = ground arith

process_event-marks :
    (sv : Services) (now later : ℕ) (e : Event) (r : Relay)
    → is_refusal (process_event sv now later e r).1 ≡ false
    → is_event_processed (id_of e.event_id) (process_event sv now later e r).0.processed ≡ true
process_event-marks sv now later e r h =
    let (id, t, v, s) = process_event-settles sv now later e r h in
    rw (s.marked, validate-id sv.known_router e id t v)
      (ground (arith, mark_event_processed_sound id id r.processed, str_eq_refl id))

process_event-keeps :
    (sv : Services) (now later : ℕ) (e : Event) (r : Relay) (id : String)
    → is_event_processed id r.processed ≡ true
    → is_event_processed id (process_event sv now later e r).0.processed ≡ true
process_event-keeps sv now later e r id h =
    elim (Bool-cases (is_refusal (process_event sv now later e r).1)) [
      | inl c ↦
          subst (λ p. is_event_processed id p ≡ true)
            (sym (ap (λ x. x.processed) (process_event-refuses_cleanly sv now later e r c))) h
      | inr c ↦
          let (x, t, v, s) = process_event-settles sv now later e r c in
          rw (s.marked) (ground (arith, mark_event_processed_sound id x r.processed))
    ]

handle-keeps :
    (a : Arrival) (r : Relay) (id : String)
    → is_event_processed id r.processed ≡ true
    → is_event_processed id (handle a r).processed ≡ true
unfolding handle
handle-keeps a r id h = ground (arith, process_event-keeps a.services a.now a.later a.event r id h)

tick-keeps :
    (events : List Arrival) (r : Relay) (id : String)
    → is_event_processed id r.processed ≡ true
    → is_event_processed id (tick events r).processed ≡ true
unfolding tick
tick-keeps [] r id h = h
tick-keeps (a ∷ more) r id h = tick-keeps more (handle a r) id (handle-keeps a r id h)

-- Once an event has been processed without being refused, whether its action succeeded or failed,
-- then after any further events, an event of the same id that is fetched again changes nothing:
-- no action, no job, no payment.
pub tick-acts_once :
    (sv : Services) (now later : ℕ) (e : Event) (r : Relay) (more : List Arrival) (again : Arrival)
    → is_refusal (process_event sv now later e r).1 ≡ false
    → again.event.event_id ≡ e.event_id
    → let after = tick more (process_event sv now later e r).0 in handle again after ≡ after
unfolding handle
tick-acts_once sv now later e r more again h same =
    let marked =
      tick-keeps more (process_event sv now later e r).0 (id_of e.event_id)
        (process_event-marks sv now later e r h) in
    ground arith

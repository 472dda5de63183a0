-- ===== src/StateMachine/Tests.antt =====
-- src/services/stateMachine.js on concrete events.
use relay_cerebro_infra.Base.{String, true, false, some, [], ◌∷◌, ◌≡◌, refl, arith}
use relay_cerebro_infra.CircuitBreaker.{get, closed, allow_request}
use relay_cerebro_infra.Base.Dict.{lookup}
use relay_cerebro_infra.StateMachine.{EventType, Event, absent, revoke_session}
use relay_cerebro_infra.JobStore.{Job, revoke_trial, get_due_jobs}
use relay_cerebro_infra.JobRunner.{revoke_action, field_of}
use relay_cerebro_infra.StateMachine.Mac.{is_valid_mac}
use relay_cerebro_infra.StateMachine.Validate.{validate}
use relay_cerebro_infra.StateMachine.Process.{
  Relay, text_of, exec_failed, process_event, authorize_action,
}
use relay_cerebro_infra.StateMachine.Outcomes.{
  Settled, process_event-refuses_cleanly, process_event-settles,
}
use relay_cerebro_infra.StateMachine.Trial.{AmongJobs, trial-scheduled}
use relay_cerebro_infra.StateMachine.Breaker.{process_all, process_all-never_opens}
use relay_cerebro_infra.StateMachine.Example.{
  trial_payload, trial_event, bad_event, failing, empty_relay,
}

good_mac : is_valid_mac " aa:bb:cc:dd:ee:01 " ≡ true
unfolding is_valid_mac
good_mac = refl

short_mac : is_valid_mac "aa:bb:cc:dd:ee" ≡ false
unfolding is_valid_mac
short_mac = refl

trial_fails : (process_event failing 1000 1200 trial_event empty_relay).1 ≡ exec_failed
unfolding process_event is_valid_mac allow_request lookup
trial_fails = refl

process_event-refuses_cleanly_example :
    (process_event failing 1000 1200 bad_event empty_relay).0 ≡ record empty_relay {
      breaker = (process_event failing 1000 1200 bad_event empty_relay).0.breaker;
    }
unfolding process_event is_valid_mac allow_request lookup
process_event-refuses_cleanly_example =
    process_event-refuses_cleanly failing 1000 1200 bad_event empty_relay refl

process_event-settles_example :
    (id : String) × (t : EventType) × (validate failing.known_router trial_event ≡ some (id, t))
    × Settled failing 1000 1200 trial_event id t empty_relay
        (process_event failing 1000 1200 trial_event empty_relay)
unfolding process_event is_valid_mac allow_request lookup
process_event-settles_example = process_event-settles failing 1000 1200 trial_event empty_relay refl

abbrev after_trial : Relay
after_trial = (process_event failing 1000 1200 trial_event empty_relay).0

trial-scheduled_example :
    (after_trial.actions ≡ authorize_action trial_payload ∷ [])
    × ((j : Job Event) × (j.job_type ≡ revoke_trial)
        × (j.run_at ≡ 421000)
        × (revoke_action j.payload
            ≡ revoke_session
                (field_of (text_of trial_payload.mik_id))
                absent
                (field_of (text_of trial_payload.mac)))
        × AmongJobs j (get_due_jobs 500000 after_trial.jobs))
unfolding process_event is_valid_mac allow_request lookup
trial-scheduled_example =
    trial-scheduled failing 1000 1200 trial_event empty_relay 500000 refl (ground arith)
      (omega arith)

process_all-never_opens_example :
    (get "r1"
      (process_all
        (record { services = failing; now = 0; later = 9; event = trial_event } ∷ [])
        empty_relay).breaker).state
    ≡ closed
process_all-never_opens_example =
    (process_all-never_opens
      (record { services = failing; now = 0; later = 9; event = trial_event } ∷ []) empty_relay
      (record { services = failing; now = 5; later = 9; event = trial_event }) "r1" refl).0

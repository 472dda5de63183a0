-- ===== src/JobRunner/Tests.antt =====
-- src/services/jobRunner.js on concrete jobs.
use relay_cerebro_infra.Base.{ℕ, some, none, [], ◌∷◌, ◌≡◌, refl, arith, Option}
use relay_cerebro_infra.Base.Dict.{lookup}
use relay_cerebro_infra.CircuitBreaker.{allow_request}
use relay_cerebro_infra.JobStore.{
  Job, JobPayload, revoke_trial, retry_event, get_job_by_id, remove_job_by_id,
}
use relay_cerebro_infra.JobStore.Hash.{to_hash, due_of_hash}
use relay_cerebro_infra.StateMachine.{Event}
use relay_cerebro_infra.StateMachine.Mac.{is_valid_mac}
use relay_cerebro_infra.StateMachine.Process.{Relay, process_event, retry_job}
use relay_cerebro_infra.StateMachine.Trial.{AmongJobs}
use relay_cerebro_infra.StateMachine.Example.{trial_event, failing, empty_relay}
use relay_cerebro_infra.JobRunner.{Settings, Runner, run_job}
use relay_cerebro_infra.JobRunner.GiveUp.{run_again, run_again-gives_up}
use relay_cerebro_infra.JobRunner.Retry.{run_job-retries_again, run_job-loses_event}

abbrev no_authorization : Option JobPayload → Relay → Option Relay
no_authorization p r = some r

abbrev three_attempts : Settings
three_attempts = record {
  max_attempts = 3;
  backoff_base_ms = 30000;
  lock_ttl_ms = 30000;
  jitter = 0;
  retry_authorize_pending = no_authorization;
}

abbrev revocation : Job Event
revocation = record {
  id = "trial-1";
  job_type = revoke_trial;
  event_id = some "e1";
  run_at = 300;
  payload = some (record { mik_id = some "r1"; mac = some "AA"; pedido_id = some "p1" });
  event = none;
  attempts = none;
  created_at = some 0;
}

abbrev retry : Job Event
retry = record revocation {
  id = "retry-1";
  job_type = retry_event;
  payload = none;
  event = some trial_event;
  attempts = some 1;
}

abbrev runner_with : Job Event → Runner
runner_with j = record { relay = record empty_relay { jobs = j ∷ [] }; locks = [] }

run_again-gives_up_example :
    get_job_by_id "trial-1"
      (run_again failing three_attempts "trial-1"
        (300 ∷ 30300 ∷ 90300 ∷ [])
        (runner_with revocation)).relay.jobs
    ≡ none
unfolding get_job_by_id lookup
run_again-gives_up_example =
    (run_again-gives_up failing three_attempts revocation (300 ∷ 30300 ∷ 90300 ∷ [])
      (runner_with revocation) "other" refl refl refl refl (omega arith) refl refl).0

run_job-retries_again_example :
    (n : ℕ) × AmongJobs
      (retry_job failing 31200 trial_event n)
      (run_job failing three_attempts 1 31000 31200 retry (runner_with retry)).relay.jobs
unfolding process_event is_valid_mac allow_request lookup
run_job-retries_again_example =
    run_job-retries_again failing three_attempts 1 31000 31200 retry trial_event (runner_with retry)
      refl refl refl refl (λ n. refl)

run_job-loses_event_example :
    (run_job failing three_attempts 1 31000 31200
      (due_of_hash Event "retry" (to_hash 1200 (retry_job failing 1200 trial_event 0)))
      (runner_with (retry_job failing 1200 trial_event 0))).relay
    ≡ empty_relay
unfolding remove_job_by_id lookup
run_job-loses_event_example =
    run_job-loses_event failing three_attempts 1 1200 1200 31000 31200 trial_event 0
      (runner_with (retry_job failing 1200 trial_event 0)) refl

-- ===== src/JobRunner/Retry.antt =====
-- src/services/jobRunner.js with src/services/stateMachine.js: the retry of an event.
use relay_cerebro_infra.Base.{
  ℕ, String, Bool, true, false, none, some, List, [], ◌∷◌, ◌++◌, ◌≡◌, refl, arith, str_eq,
  Bool-cases, inl, inr, ap, sym, subst, ◌∙◌,
}
use relay_cerebro_infra.Base.Dict.{lookup}
use relay_cerebro_infra.JobStore.{
  Job, retry_event, acquire_lock, remove_job_by_id, mark_job_as_processed,
}
use relay_cerebro_infra.JobStore.Hash.{to_hash, due_of_hash}
use relay_cerebro_infra.StateMachine.{Event, Services}
use relay_cerebro_infra.StateMachine.Process.{
  Relay, Reply, ok, invalid, circuit_open, peer_offline, wrong_type, exec_failed, unhandled,
  retry_job, process_event,
}
use relay_cerebro_infra.StateMachine.Outcomes.{
  is_refusal, ids_after, trial_jobs, retry_jobs, process_event-settles,
}
use relay_cerebro_infra.StateMachine.Trial.{AmongJobs}
use relay_cerebro_infra.JobRunner.{Settings, Runner, run_by_type, or_copy, run_job}

remove-append :
    (k : String) (a b : List (Job Event))
    → remove_job_by_id k (a ++ b) ≡ remove_job_by_id k a ++ remove_job_by_id k b
unfolding remove_job_by_id
remove-append k [] b = refl
remove-append k (j ∷ a) b = elim (Bool-cases (str_eq j.id k)) [
  | inl e ↦ rw (e) (remove-append k a b)
  | inr e ↦ rw (e) (ap (λ l. j ∷ l) (remove-append k a b))
]

AmongJobs-remove :
    (k : String) (j : Job Event) (jobs : List (Job Event))
    → str_eq j.id k ≡ false
    → AmongJobs j jobs
    → AmongJobs j (remove_job_by_id k jobs)
unfolding remove_job_by_id
AmongJobs-remove k j jobs h (before, after, q) = (
  remove_job_by_id k before,
  remove_job_by_id k after,
  rw (q, remove-append k before (j ∷ after), h) refl,
)

-- The replies after a failed action or an exception.
abbrev pub is_failure : Reply → Bool
is_failure ok = false
is_failure invalid = false
is_failure circuit_open = false
is_failure peer_offline = false
is_failure wrong_type = false
is_failure exec_failed = true
is_failure unhandled = true

retry_jobs-failure :
    (sv : Services) (later : ℕ) (e : Event) (reply : Reply) (n : ℕ)
    → is_failure reply ≡ true
    → (retry_jobs sv later e reply n ≡ retry_job sv later e n ∷ []) × (is_refusal reply ≡ false)
retry_jobs-failure sv later e ok n h = ground arith
retry_jobs-failure sv later e invalid n h = ground arith
retry_jobs-failure sv later e circuit_open n h = ground arith
retry_jobs-failure sv later e peer_offline n h = ground arith
retry_jobs-failure sv later e wrong_type n h = ground arith
retry_jobs-failure sv later e exec_failed n h = (refl, refl)
retry_jobs-failure sv later e unhandled n h = (refl, refl)

failed-AmongJobs :
    (sv : Services) (now later : ℕ) (e : Event) (r : Relay)
    → is_failure (process_event sv now later e r).1 ≡ true
    → (n : ℕ) × AmongJobs (retry_job sv later e n) (process_event sv now later e r).0.jobs
failed-AmongJobs sv now later e r h =
    let reply = (process_event sv now later e r).1 in
    let (id, t, v, s) =
      process_event-settles sv now later e r (retry_jobs-failure sv later e reply 0 h).1 in
    let n = ids_after t r in
    (
      n,
      (
        r.jobs ++ trial_jobs sv now id e t r,
        [],
        s.queued
            ∙ ap (λ l. (r.jobs ++ trial_jobs sv now id e t r) ++ l)
                (retry_jobs-failure sv later e reply n h).0,
      ),
    )

ran-retry :
    (sv : Services) (st : Settings) (token now later : ℕ) (j : Job Event) (e : Event) (r : Runner)
    → j.job_type ≡ retry_event
    → j.event ≡ some e
    → lookup j.id r.locks ≡ none
    → (run_job sv st token now later j r).relay.jobs
      ≡ remove_job_by_id j.id (process_event sv now later e r.relay).0.jobs
unfolding run_job acquire_lock run_by_type or_copy mark_job_as_processed
ran-retry sv st token now later j e r ty ev free = rw (free, ty, ev) refl

-- A stored retry whose event fails again when the job runner processes it is followed by another
-- retry of the same event, 30 seconds after the failure and again as the first attempt, if its new
-- id differs from the old job's: failing retries never give up.
pub run_job-retries_again :
    (sv : Services) (st : Settings) (token now later : ℕ) (j : Job Event) (e : Event) (r : Runner)
    → j.job_type ≡ retry_event
    → j.event ≡ some e
    → lookup j.id r.locks ≡ none
    → is_failure (process_event sv now later e r.relay).1 ≡ true
    → ((n : ℕ) → str_eq (sv.job_id "retry" n) j.id ≡ false)
    → (n : ℕ) × AmongJobs (retry_job sv later e n) (run_job sv st token now later j r).relay.jobs
run_job-retries_again sv st token now later j e r ty ev free fails fresh =
    let (n, m) = failed-AmongJobs sv now later e r.relay fails in
    (
      n,
      subst (AmongJobs (retry_job sv later e n))
          (sym (ran-retry sv st token now later j e r ty ev free))
          (AmongJobs-remove j.id (retry_job sv later e n) _ (fresh n) m),
    )

-- With the Redis backend: the retry that `processEvent` schedules for an event, as `getDueJobs` reads
-- it back from the hash in which it was stored, ends without processing the event when the job runner
-- runs it with its lock free: no action is issued, no event is marked, no retry follows, and the job
-- is removed.
pub run_job-loses_event :
    (sv : Services) (st : Settings) (token stored_at scheduled_at now later : ℕ) (e : Event) (n : ℕ)
    (r : Runner)
    → lookup (sv.job_id "retry" n) r.locks ≡ none
    → (run_job sv st token now later
        (due_of_hash Event
          (sv.job_id "retry" n)
          (to_hash stored_at (retry_job sv scheduled_at e n)))
        r).relay
      ≡ record r.relay { jobs = remove_job_by_id (sv.job_id "retry" n) r.relay.jobs }
unfolding run_job acquire_lock run_by_type or_copy mark_job_as_processed due_of_hash to_hash
run_job-loses_event sv st token stored_at scheduled_at now later e n r free = rw (free) refl

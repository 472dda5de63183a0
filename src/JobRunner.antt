-- ===== src/JobRunner.antt =====
-- src/services/jobRunner.js over the file backend of the job store: `runDueJobs`. The heartbeat is
-- left out: it moves the expiry of a lock that the end of the same run deletes. So are the audit
-- trail and the counters. The clock reads `now` at the start of the tick and of each job's lock,
-- and `later` after an action.
mod GiveUp
mod Retry
mod Tests
use relay_cerebro_infra.Base.{
  ℕ, ◌+◌, ◌-◌, ◌*◌, ◌^◌, String, Bool, true, false, Option, none, some, List, [], ◌∷◌, ◌++◌, leb,
  if◌then◌else◌,
}
use Prim.Native.String as Text
use relay_cerebro_infra.JobStore.{
  Job, JobType, JobPayload, revoke_trial, retry_event, authorize_pending, other_job, LockMap,
  acquire_lock, release_lock, add_job, mark_job_as_processed, get_due_jobs, increment_job_attempts,
  reschedule_job,
}
use relay_cerebro_infra.StateMachine.{
  Field, absent, text, Event, Action, revoke_session, ActionResult, done, failed, threw, Services,
}
use relay_cerebro_infra.StateMachine.Process.{Relay, process_event}

-- RELAY_JOB_MAX_ATTEMPTS, RELAY_JOB_BACKOFF_BASE_MS, RELAY_LOCK_TTL_MS, the jitter drawn, and
-- `retryAuthorizePending` (`none` where it throws), which can schedule jobs of its own.
pub record Settings : Type 0 where
  pub max_attempts : ℕ
  pub backoff_base_ms : ℕ
  pub lock_ttl_ms : ℕ
  pub jitter : ℕ
  pub retry_authorize_pending : Option JobPayload → Relay → Option Relay

pub record Runner : Type 0 where
  pub relay : Relay
  pub locks : LockMap

abbrev pub field_of : Option String → Field
field_of none = absent
field_of (some s) = text s

abbrev pub revoke_action : Option JobPayload → Action
revoke_action none = revoke_session absent absent absent
revoke_action (some p) = revoke_session (field_of p.mik_id) absent (field_of p.mac)

abbrev pub with_jobs : (List (Job Event) → List (Job Event)) → Relay → Relay
with_jobs f r = record r { jobs = f r.jobs }

-- The failed revocation, one that `executeAction` does not answer with `ok: true`, as it does also
-- where a router refuses: the attempts are counted, then the job is dropped or put off. The count is
-- 0 for a job that is no longer stored, and then nothing is there to put off.
unfoldable pub back_off : Settings → ℕ → Job Event → Relay → Relay
unfolding increment_job_attempts reschedule_job mark_job_as_processed
back_off st later j r =
    let (jobs, attempts) = increment_job_attempts j.id r.jobs in
    let r' = record r { jobs = jobs } in
    if leb st.max_attempts attempts
    then with_jobs (mark_job_as_processed j.id) r'
    else with_jobs
        (reschedule_job j.id (later + st.backoff_base_ms * 2 ^ (attempts - 1) + st.jitter)) r'

unfoldable pub after_revoke : Settings → ℕ → Job Event → ActionResult → Relay → Option Relay
unfolding back_off mark_job_as_processed
after_revoke st later j done r = some (with_jobs (mark_job_as_processed j.id) r)
after_revoke st later j failed r = some (back_off st later j r)
after_revoke st later j threw r = none

abbrev pub retried : Services → ℕ → ℕ → Option Event → Relay → Relay
retried sv now later none r = r
retried sv now later (some e) r = (process_event sv now later e r).0

abbrev drop_after : String → Option Relay → Option Relay
drop_after id none = none
drop_after id (some r) = some (with_jobs (mark_job_as_processed id) r)

-- The branches of the job types; `none` where an exception leaves them.
unfoldable pub run_by_type :
    Services → Settings → ℕ → ℕ → Job Event → JobType → Relay → Option Relay
unfolding after_revoke mark_job_as_processed
run_by_type sv st now later j revoke_trial r =
    let a = revoke_action j.payload in
    after_revoke st later j (sv.execute a) (record r { actions = r.actions ++ a ∷ [] })
run_by_type sv st now later j retry_event r =
    some (with_jobs (mark_job_as_processed j.id) (retried sv now later j.event r))
run_by_type sv st now later j authorize_pending r =
    drop_after j.id (st.retry_authorize_pending j.payload r)
run_by_type sv st now later j (other_job t) r = some (with_jobs (mark_job_as_processed j.id) r)

-- The outer `catch`: the job comes back under a new id. An exception leaves the relay as it was,
-- but for the action that threw.
abbrev pub retry_copy : ℕ → Job Event → Job Event
retry_copy later j = record j { id = Text.◌++◌ j.id "-retry"; run_at = later + 30000 }

abbrev pub thrown_actions : Job Event → JobType → List Action
thrown_actions j revoke_trial = revoke_action j.payload ∷ []
thrown_actions j retry_event = []
thrown_actions j authorize_pending = []
thrown_actions j (other_job t) = []

unfoldable pub or_copy : ℕ → Job Event → Relay → Option Relay → Relay
unfolding add_job mark_job_as_processed
or_copy later j r none =
    let r' = record r { actions = r.actions ++ thrown_actions j j.job_type } in
    with_jobs (mark_job_as_processed j.id) (with_jobs (add_job (retry_copy later j)) r')
or_copy later j r (some r') = r'

-- One round of the loop; `token` is the fresh lock token.
abbrev pub locked_run :
    Services → Settings → ℕ → ℕ → Job Event → Runner → LockMap × Option ℕ → Runner
unfolding or_copy run_by_type release_lock
locked_run sv st now later j r (locks, none) = r
locked_run sv st now later j r (locks, some token) = record {
  relay = or_copy later j r.relay (run_by_type sv st now later j j.job_type r.relay);
  locks = release_lock j.id (some token) locks;
}

unfoldable pub run_job : Services → Settings → ℕ → ℕ → ℕ → Job Event → Runner → Runner
unfolding acquire_lock or_copy run_by_type release_lock
run_job sv st token now later j r =
    locked_run sv st now later j r (acquire_lock j.id st.lock_ttl_ms token now r.locks)

-- The due jobs are read once, before the first of them runs.
unfoldable pub run_jobs : Services → Settings → ℕ → ℕ → ℕ → List (Job Event) → Runner → Runner
run_jobs sv st token now later [] r = r
run_jobs sv st token now later (j ∷ due) r =
    run_jobs sv st (token + 1) now later due (run_job sv st token now later j r)

unfoldable pub run_due_jobs : Services → Settings → ℕ → ℕ → ℕ → Runner → Runner
unfolding run_jobs get_due_jobs
run_due_jobs sv st token now later r =
    run_jobs sv st token now later (get_due_jobs now r.relay.jobs) r

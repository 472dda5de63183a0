-- ===== src/JobStore/Hash.antt =====
-- src/services/jobStore.js, Redis backend: the hash that `addJob` and `saveJobs` write for a job,
-- and the job that `getDueJobs`, `listJobs` and `getJobById` read back from it. A number and the
-- payload's JSON stand for the texts that they are written as; JSON.parse gives a payload back.
use relay_cerebro_infra.Base.{ℕ, String, Option, none, some}
use relay_cerebro_infra.JobStore.{Job, JobType, JobPayload, attempts_of}

-- The fields of the hash. `incrementJobAttempts` adds `attempts`.
pub record JobHash : Type 0 where
  pub id : String
  pub job_type : JobType
  pub event_id : String
  pub run_at : ℕ
  pub payload : JobPayload
  pub created_at : ℕ
  pub attempts : Option ℕ

abbrev pub or_empty : Option String → String
or_empty none = ""
or_empty (some s) = s

abbrev no_payload : JobPayload
no_payload = record { mik_id = none; mac = none; pedido_id = none }

abbrev pub payload_or_empty : Option JobPayload → JobPayload
payload_or_empty none = no_payload
payload_or_empty (some p) = p

abbrev pub created_or : Option ℕ → ℕ → ℕ
created_or none now = now
created_or (some t) now = t

module _ {E : Type 0} where
  unfoldable pub to_hash : ℕ → Job E → JobHash
  to_hash now j = record {
    id = j.id;
    job_type = j.job_type;
    event_id = or_empty j.event_id;
    run_at = j.run_at;
    payload = payload_or_empty j.payload;
    created_at = created_or j.created_at now;
    attempts = none;
  }

-- `getDueJobs` and `listJobs`.
unfoldable pub due_of_hash : (E : Type 0) → String → JobHash → Job E
due_of_hash E id h = record {
  id = id;
  job_type = h.job_type;
  event_id = some h.event_id;
  run_at = h.run_at;
  payload = some h.payload;
  event = none;
  attempts = none;
  created_at = some h.created_at;
}

-- `getJobById`.
unfoldable pub job_of_hash : (E : Type 0) → String → JobHash → Job E
unfolding due_of_hash
job_of_hash E id h = record (due_of_hash E id h) { attempts = some (attempts_of h.attempts) }

-- ===== src/JobStore.antt =====
-- src/services/jobStore.js with the file backend (the default): scheduled jobs, processed event
-- ids and the in-process locks. `Date.now()` and the random tokens are arguments. A file that is
-- missing or unreadable reads as the empty list, as `readJson` has it; a write is taken to succeed (where
-- it fails, `writeJson` logs that and the file stays as it was). The hash under which the
-- Redis backend keeps a job is in JobStore/Hash.antt.
pub mod Locks
pub mod Laws
pub mod Hash
pub mod Redis
mod Tests
use relay_cerebro_infra.Base.{
  ℕ, suc, ◌+◌, String, Bool, true, false, Option, none, some, List, [], ◌∷◌, ◌++◌, ltb, leb, ◌==◌,
  str_eq, if◌then◌else◌,
}
use relay_cerebro_infra.Base.Dict.{lookup, insert, remove}

-- The types of job that the program makes.
pub data JobType : Type 0 where
  revoke_trial retry_event authorize_pending : JobType
  other_job : String → JobType

-- The fields of a payload that the job runner reads itself, which are those of a trial's revocation. The
-- payload of an authorization that is pending is only handed to `retryAuthorizePending`, whose model
-- has a payload of its own.
pub record JobPayload : Type 0 where
  pub mik_id : Option String
  pub mac : Option String
  pub pedido_id : Option String

-- A job; `E` is the type of the event that a retry carries.
pub record Job (E : Type 0) : Type 0 where
  pub id : String
  pub job_type : JobType
  pub event_id : Option String
  pub run_at : ℕ
  pub payload : Option JobPayload
  pub event : Option E
  pub attempts : Option ℕ
  pub created_at : Option ℕ

abbrev pub attempts_of : Option ℕ → ℕ
attempts_of none = 0
attempts_of (some n) = n

module _ {E : Type 0} where
  -- `addJob`: `jobs.push(job)`.
  unfoldable pub add_job : Job E → List (Job E) → List (Job E)
  add_job j jobs = jobs ++ j ∷ []

  -- `removeJobById`, and `markJobAsProcessed`, which calls it.
  unfoldable pub remove_job_by_id : String → List (Job E) → List (Job E)
  remove_job_by_id k [] = []
  remove_job_by_id k (j ∷ jobs) =
      let rest = remove_job_by_id k jobs in if str_eq j.id k then rest else j ∷ rest

  unfoldable pub mark_job_as_processed : String → List (Job E) → List (Job E)
  unfolding remove_job_by_id
  mark_job_as_processed k jobs = remove_job_by_id k jobs

  unfoldable pub get_due_jobs : ℕ → List (Job E) → List (Job E)
  get_due_jobs now [] = []
  get_due_jobs now (j ∷ jobs) =
      let rest = get_due_jobs now jobs in if leb j.run_at now then j ∷ rest else rest

  unfoldable pub get_job_by_id : String → List (Job E) → Option (Job E)
  get_job_by_id k [] = none
  get_job_by_id k (j ∷ jobs) = if str_eq j.id k then some j else get_job_by_id k jobs

  -- The job at `findIndex`, changed; no job, no change.
  unfoldable pub update_job : (Job E → Job E) → String → List (Job E) → List (Job E)
  update_job f k [] = []
  update_job f k (j ∷ jobs) =
      let rest = update_job f k jobs in if str_eq j.id k then f j ∷ jobs else j ∷ rest

  abbrev pub next_attempt : Job E → Job E
  next_attempt j = record j { attempts = some (attempts_of j.attempts + 1) }

  abbrev pub attempts_after : Option (Job E) → ℕ
  attempts_after none = 0
  attempts_after (some j) = attempts_of j.attempts + 1

  -- The new list and the number of attempts, 0 for an unknown job.
  unfoldable pub increment_job_attempts : String → List (Job E) → List (Job E) × ℕ
  unfolding update_job get_job_by_id
  increment_job_attempts k jobs =
      (update_job next_attempt k jobs, attempts_after (get_job_by_id k jobs))

  unfoldable pub reschedule_job : String → ℕ → List (Job E) → List (Job E)
  unfolding update_job
  reschedule_job k next_run_at jobs = update_job (λ j. record j { run_at = next_run_at }) k jobs

-- `arr.includes(eventId)`.
unfoldable pub is_event_processed : String → List String → Bool
is_event_processed e [] = false
is_event_processed e (x ∷ arr) = if str_eq x e then true else is_event_processed e arr

unfoldable pub mark_event_processed : String → List String → List String
unfolding is_event_processed
mark_event_processed e arr = if is_event_processed e arr then arr else arr ++ e ∷ []

-- An entry of `inMemoryLocks`. Tokens are numbers here: each call draws a fresh one.
pub record Lock : Type 0 where
  pub token : ℕ
  pub expires_at : ℕ

abbrev pub LockMap : Type 0
LockMap = List (String × Lock)

abbrev take_over : Option Lock → ℕ → Bool
take_over none now = true
take_over (some l) now = ltb l.expires_at now

unfoldable pub acquire_lock : String → ℕ → ℕ → ℕ → LockMap → LockMap × Option ℕ
acquire_lock k ttl token now locks =
    if take_over (lookup k locks) now
    then (insert k (record { token = token; expires_at = now + ttl }) locks, some token)
    else (locks, none)

abbrev holds : Option Lock → ℕ → Bool
holds none token = false
holds (some l) token = l.token == token

unfoldable pub extend_lock : String → ℕ → ℕ → ℕ → LockMap → LockMap × Bool
extend_lock k token ttl now locks =
    if holds (lookup k locks) token
    then (insert k (record { token = token; expires_at = now + ttl }) locks, true)
    else (locks, false)

-- Without a token the lock is deleted, whoever holds it.
unfoldable pub release_lock : String → Option ℕ → LockMap → LockMap
release_lock k none locks = remove k locks
release_lock k (some token) locks = if holds (lookup k locks) token then remove k locks else locks

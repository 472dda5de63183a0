-- ===== src/JobStore/Tests.antt =====
-- src/services/jobStore.js on concrete jobs and locks.
use relay_cerebro_infra.Base.{◌≡◌, refl, eq_iff, String, none, some, List, [], ◌∷◌, arith}
use relay_cerebro_infra.Base.Dict.{lookup}
use relay_cerebro_infra.JobStore.{
  Job, retry_event, acquire_lock, add_job, get_job_by_id, increment_job_attempts, reschedule_job,
}
use relay_cerebro_infra.JobStore.Redis.{
  Store, redis_add_job, redis_get_job_by_id, redis_increment_job_attempts, redis_reschedule_job,
}
use relay_cerebro_infra.JobStore.Redis.Memory.{memory_set, memory_hashes}
use relay_cerebro_infra.JobStore.Redis.Refine.{
  hash_of, stored, image, time_of, started, added, counted, rescheduled, redis-refines,
}
use relay_cerebro_infra.JobStore.Locks.{
  acquires, extends, releases, LockCall, AllForeign, lock_run, acquired_excludes,
}
use relay_cerebro_infra.JobStore.Hash.{job_of_hash}

-- A retry as src/services/stateMachine.js makes it, with one attempt, and its event's text.
abbrev retry_job : Job String
retry_job = record {
  id = "retry-1";
  job_type = retry_event;
  event_id = none;
  run_at = 300;
  payload = none;
  event = some "{}";
  attempts = some 1;
  created_at = some 0;
}

abbrev others : List LockCall
others =
    acquires "j1" 1000 8 50
    ∷ extends "j1" 8 1000 60
    ∷ releases "j1" (some 8)
    ∷ releases "j2" none
    ∷ []

others_foreign : AllForeign "j1" 7 100 others
others_foreign = (
  omega arith,
  (
    λ h. absurd (ground arith),
    (λ h. absurd (ground arith), (λ h. absurd (ground (arith, (eq_iff "j2" "j1").1 h)), tt)),
  ),
)

acquired_excludes_example :
    (acquire_lock "j1" 30 9 90 (lock_run others (acquire_lock "j1" 100 7 0 []).0)).1 ≡ none
unfolding acquire_lock lookup
acquired_excludes_example =
    (acquired_excludes "j1" 100 7 0 [] others 9 90 30 refl others_foreign (omega arith)).1

abbrev empty_store : Store memory_set memory_hashes
empty_store = record { jobs_zset = []; job_hashes = [] }

abbrev with_job : Store memory_set memory_hashes
with_job = redis_add_job memory_set memory_hashes 5 retry_job empty_store

abbrev postponed : Store memory_set memory_hashes
postponed =
    redis_reschedule_job memory_set memory_hashes "retry-1" 900
      (redis_increment_job_attempts memory_set memory_hashes "retry-1" with_job)

abbrev listed : List (Job String)
listed =
    reschedule_job "retry-1" 900
      (increment_job_attempts "retry-1" (add_job (stored 5 retry_job) [])).0

redis-refines_example :
    (redis_get_job_by_id memory_set memory_hashes {E = String} "retry-1" postponed
      ≡ image (λ j. job_of_hash String "retry-1" (hash_of j)) (get_job_by_id "retry-1" listed))
    × (lookup "retry-1" postponed.jobs_zset ≡ image time_of (get_job_by_id "retry-1" listed))
unfolding redis_add_job redis_increment_job_attempts get_job_by_id increment_job_attempts add_job
    lookup
redis-refines_example = redis-refines memory_set memory_hashes postponed listed "retry-1" (
    rescheduled "retry-1" 900 (record retry_job { attempts = some 1 }) _ _ refl
      (counted "retry-1" (stored 5 retry_job) _ _ refl
        (added 5 retry_job empty_store [] refl (started empty_store (λ k. refl) (λ k. refl)))))

-- ===== src/JobStore/Redis/Refine.antt =====
-- src/services/jobStore.js: the Redis backend against the file backend.
use relay_cerebro_infra.Base.{
  ℕ, String, Option, none, some, List, [], ◌≡◌, refl, arith, eq_iff, ap, ◌∙◌,
}
use relay_cerebro_infra.JobStore.{
  Job, add_job, remove_job_by_id, get_job_by_id, next_attempt, increment_job_attempts,
  reschedule_job,
}
use relay_cerebro_infra.JobStore.Hash.{
  JobHash, to_hash, job_of_hash, or_empty, payload_or_empty, created_or,
}
use relay_cerebro_infra.JobStore.Laws.{
  get_job_by_id-add, get_job_by_id-remove, get_job_by_id-update,
}
use relay_cerebro_infra.JobStore.Redis.{
  SortedSet, Hashes, Store, read_hash, redis_add_job, redis_get_job_by_id, redis_remove_job_by_id,
  redis_increment_job_attempts, redis_reschedule_job,
}

module _ {E : Type 0} where
  -- The hash that stands for a job.
  abbrev pub hash_of : Job E → JobHash
  hash_of j = record {
    id = j.id;
    job_type = j.job_type;
    event_id = or_empty j.event_id;
    run_at = j.run_at;
    payload = payload_or_empty j.payload;
    created_at = created_or j.created_at 0;
    attempts = j.attempts;
  }

  abbrev pub image {ℓ} : {A : Type ℓ} → (Job E → A) → Option (Job E) → Option A
  image f none = none
  image f (some j) = some (f j)

  abbrev pub time_of : Job E → ℕ
  time_of j = j.run_at

  -- A job without its attempts, which the hash of an added job does not hold, and with a creation time.
  abbrev pub stored : ℕ → Job E → Job E
  stored now j = record j { attempts = none; created_at = some (created_or j.created_at now) }

  to_hash-stored : (now : ℕ) (j : Job E) → to_hash now j ≡ hash_of (stored now j)
  unfolding to_hash
  to_hash-stored now j = refl

module _ (Z : SortedSet) (H : Hashes) {E : Type 0} where
  -- What Redis holds under an id is what the list holds under it.
  abbrev Same : Store Z H → List (Job E) → String → Type 0
  Same s jobs k =
      (H.hgetall k s.job_hashes ≡ image hash_of (get_job_by_id k jobs))
      × (Z.zscore k s.jobs_zset ≡ image time_of (get_job_by_id k jobs))

  -- The two backends after the same calls, from the empty store on: jobs are added under new ids, to the
  -- file without their attempts, and attempts and times are changed of jobs that are there.
  pub data Reached : Store Z H → List (Job E) → Type 0 where
    started :
        (s : Store Z H)
        → ((k : String) → H.hgetall k s.job_hashes ≡ none)
        → ((k : String) → Z.zscore k s.jobs_zset ≡ none)
        → Reached s []
    added :
        (now : ℕ) (j : Job E) (s : Store Z H) (jobs : List (Job E))
        → get_job_by_id j.id jobs ≡ none
        → Reached s jobs
        → Reached (redis_add_job Z H now j s) (add_job (stored now j) jobs)
    removed :
        (k : String) (s : Store Z H) (jobs : List (Job E))
        → Reached s jobs
        → Reached (redis_remove_job_by_id Z H k s) (remove_job_by_id k jobs)
    counted :
        (k : String) (j : Job E) (s : Store Z H) (jobs : List (Job E))
        → get_job_by_id k jobs ≡ some j
        → Reached s jobs
        → Reached (redis_increment_job_attempts Z H k s) (increment_job_attempts k jobs).0
    rescheduled :
        (k : String) (n : ℕ) (j : Job E) (s : Store Z H) (jobs : List (Job E))
        → get_job_by_id k jobs ≡ some j
        → Reached s jobs
        → Reached (redis_reschedule_job Z H k n s) (reschedule_job k n jobs)

  add-Same :
      (now : ℕ) (j : Job E) (s : Store Z H) (jobs : List (Job E)) (k : String)
      → get_job_by_id j.id jobs ≡ none
      → Same s jobs j.id
      → Same s jobs k
      → Same (redis_add_job Z H now j s) (add_job (stored now j) jobs) k
  unfolding redis_add_job
  add-Same now j s jobs k fresh self same =
      let new : H.hgetall j.id s.job_hashes ≡ none = self.0 ∙ ap (image hash_of) fresh in
      (
        ground (
          arith,
          H.hgetall-hmset j.id k (to_hash now j) s.job_hashes new,
          to_hash-stored now j,
          get_job_by_id-add k (stored now j) jobs,
          eq_iff j.id k,
          same.0,
          fresh,
        ),
        ground (
          arith,
          Z.zscore-zadd j.id k j.run_at s.jobs_zset,
          get_job_by_id-add k (stored now j) jobs,
          eq_iff j.id k,
          same.1,
          fresh,
        ),
      )

  remove-Same :
      (k : String) (s : Store Z H) (jobs : List (Job E)) (i : String)
      → Same s jobs i
      → Same (redis_remove_job_by_id Z H k s) (remove_job_by_id k jobs) i
  unfolding redis_remove_job_by_id
  remove-Same k s jobs i same = (
    ground (arith, H.hgetall-del k i s.job_hashes, get_job_by_id-remove k i jobs, same.0),
    ground (arith, Z.zscore-zrem k i s.jobs_zset, get_job_by_id-remove k i jobs, same.1),
  )

  count-Same :
      (k : String) (j : Job E) (s : Store Z H) (jobs : List (Job E)) (i : String)
      → get_job_by_id k jobs ≡ some j
      → Same s jobs k
      → Same s jobs i
      → Same (redis_increment_job_attempts Z H k s) (increment_job_attempts k jobs).0 i
  unfolding redis_increment_job_attempts increment_job_attempts
  count-Same k j s jobs i found self same =
      let there : H.hgetall k s.job_hashes ≡ some (hash_of j) = self.0 ∙ ap (image hash_of) found in
      (
        ground (
          arith,
          H.hgetall-hincrby_attempts k i (hash_of j) s.job_hashes there,
          get_job_by_id-update next_attempt k i jobs (λ y. refl),
          eq_iff k i,
          same.0,
          found,
        ),
        ground (
          arith,
          get_job_by_id-update next_attempt k i jobs (λ y. refl),
          eq_iff k i,
          same.1,
          found,
        ),
      )

  reschedule-Same :
      (k : String) (n : ℕ) (j : Job E) (s : Store Z H) (jobs : List (Job E)) (i : String)
      → get_job_by_id k jobs ≡ some j
      → Same s jobs k
      → Same s jobs i
      → Same (redis_reschedule_job Z H k n s) (reschedule_job k n jobs) i
  unfolding redis_reschedule_job reschedule_job
  reschedule-Same k n j s jobs i found self same =
      let there : H.hgetall k s.job_hashes ≡ some (hash_of j) = self.0 ∙ ap (image hash_of) found in
      (
        ground (
          arith,
          H.hgetall-hset_run_at k i n (hash_of j) s.job_hashes there,
          get_job_by_id-update (λ y. record y { run_at = n }) k i jobs (λ y. refl),
          eq_iff k i,
          same.0,
          found,
        ),
        ground (
          arith,
          Z.zscore-zadd k i n s.jobs_zset,
          get_job_by_id-update (λ y. record y { run_at = n }) k i jobs (λ y. refl),
          eq_iff k i,
          same.1,
          found,
        ),
      )

  Reached-Same :
      (s : Store Z H) (jobs : List (Job E)) → Reached s jobs → (k : String) → Same s jobs k
  unfolding get_job_by_id
  Reached-Same _ _ (started s hashes scores) k = (hashes k, scores k)
  Reached-Same _ _ (added now j s jobs fresh before) k =
      add-Same now j s jobs k fresh (Reached-Same s jobs before j.id) (Reached-Same s jobs before k)
  Reached-Same _ _ (removed i s jobs before) k =
      remove-Same i s jobs k (Reached-Same s jobs before k)
  Reached-Same _ _ (counted i j s jobs found before) k =
      count-Same i j s jobs k found (Reached-Same s jobs before i) (Reached-Same s jobs before k)
  Reached-Same _ _ (rescheduled i n j s jobs found before) k =
      reschedule-Same i n j s jobs k found (Reached-Same s jobs before i)
        (Reached-Same s jobs before k)

  read-image :
      (k : String) (o : Option JobHash) (p : Option (Job E))
      → o ≡ image hash_of p
      → read_hash Z H k o ≡ image (λ j. job_of_hash E k (hash_of j)) p
  read-image k o none h = ap (read_hash Z H k) h
  read-image k o (some j) h = ap (read_hash Z H k) h

  -- The Redis backend refines the file backend: after the same additions, removals, counted attempts
  -- and reschedulings on both, in any order, from the empty store on, `getJobById` finds under every id
  -- what the hash of the listed job is read as, nothing where none is listed, and the sorted set holds
  -- the time of the listed job. Jobs of any type are added under new ids, those to the file without
  -- their attempts, which the Redis backend does not store (it reads them as 0), and attempts and times are changed only of jobs that are there.
  pub redis-refines :
      (s : Store Z H) (jobs : List (Job E)) (k : String)
      → Reached s jobs
      → (redis_get_job_by_id Z H k s
          ≡ image (λ j. job_of_hash E k (hash_of j)) (get_job_by_id k jobs))
        × (Z.zscore k s.jobs_zset ≡ image time_of (get_job_by_id k jobs))
  unfolding redis_get_job_by_id
  redis-refines s jobs k reached =
      let same = Reached-Same s jobs reached k in
      (read-image k (H.hgetall k s.job_hashes) (get_job_by_id k jobs) same.0, same.1)

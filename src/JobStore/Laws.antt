-- ===== src/JobStore/Laws.antt =====
-- src/services/jobStore.js, file backend: what the list of jobs and the list of processed events
-- hold after each operation.
use relay_cerebro_infra.Base.{
  ℕ, ◌+◌, String, Bool, true, false, Option, none, some, ◌≡◌, refl, List, [], ◌∷◌, ◌++◌, leb,
  str_eq, str_eq_refl, eq_iff, arith, if◌then◌else◌, is_some,
}
use relay_cerebro_infra.JobStore.{
  Job, add_job, remove_job_by_id, get_due_jobs, get_job_by_id, update_job, attempts_of,
  next_attempt, increment_job_attempts, reschedule_job, is_event_processed, mark_event_processed,
}

module _ {E : Type 0} where
  pub get_job_by_id-remove :
      (k j : String) (jobs : List (Job E))
      → get_job_by_id j (remove_job_by_id k jobs)
        ≡ (if str_eq k j then none else get_job_by_id j jobs)
  unfolding get_job_by_id remove_job_by_id
  get_job_by_id-remove k j [] = ground arith
  get_job_by_id-remove k j (x ∷ jobs) =
      ground (arith, eq_iff k j, eq_iff x.id k, eq_iff x.id j, get_job_by_id-remove k j jobs)

  pub get_job_by_id-add :
      (j : String) (x : Job E) (jobs : List (Job E))
      → get_job_by_id j (add_job x jobs) ≡ (
          if is_some (get_job_by_id j jobs)
          then get_job_by_id j jobs
          else if str_eq x.id j
          then some x
          else none)
  unfolding get_job_by_id add_job
  get_job_by_id-add j x [] = ground arith
  get_job_by_id-add j x (y ∷ jobs) = ground (arith, get_job_by_id-add j x jobs)

  -- Whether a job of this id is in a list.
  abbrev pub has : String → List (Job E) → Bool
  has k jobs = is_some (get_job_by_id k jobs)

  -- A job that is added under a new id is found under that id, and after its removal every id finds
  -- what it found before the job was added.
  add_job-remove :
      (x : Job E) (jobs : List (Job E)) (j : String)
      → has x.id jobs ≡ false
      → (get_job_by_id x.id (add_job x jobs) ≡ some x)
        × (get_job_by_id j (remove_job_by_id x.id (add_job x jobs)) ≡ get_job_by_id j jobs)
  add_job-remove x jobs j fresh = ground (
    arith,
    get_job_by_id-add x.id x jobs,
    get_job_by_id-add j x jobs,
    get_job_by_id-remove x.id j (add_job x jobs),
    eq_iff x.id j,
    str_eq_refl x.id,
  )

  -- An added job is due, after the others, exactly from its time on.
  pub get_due_jobs-add :
      (now : ℕ) (x : Job E) (jobs : List (Job E))
      → get_due_jobs now (add_job x jobs)
        ≡ get_due_jobs now jobs ++ (if leb x.run_at now then x ∷ [] else [])
  unfolding get_due_jobs add_job
  get_due_jobs-add now x [] = ground arith
  get_due_jobs-add now x (y ∷ jobs) = ground (arith, get_due_jobs-add now x jobs)

  abbrev pub mapped : (Job E → Job E) → Option (Job E) → Option (Job E)
  mapped f none = none
  mapped f (some x) = some (f x)

  pub get_job_by_id-update :
      (f : Job E → Job E) (k j : String) (jobs : List (Job E))
      → ((x : Job E) → (f x).id ≡ x.id)
      → get_job_by_id j (update_job f k jobs)
        ≡ (if str_eq k j then mapped f (get_job_by_id j jobs) else get_job_by_id j jobs)
  unfolding get_job_by_id update_job
  get_job_by_id-update f k j [] h = ground arith
  get_job_by_id-update f k j (x ∷ jobs) h =
      ground
        (arith, eq_iff k j, eq_iff x.id k, eq_iff x.id j, h x, get_job_by_id-update f k j jobs h)

  -- What a failed revoke job goes through: its attempts are counted up by one, the count is given
  -- back, and the job is put off to the given time. The job is otherwise as it was, and every other
  -- job is found as before.
  pub reschedule-increment :
      (x : Job E) (jobs : List (Job E)) (j : String) (next : ℕ)
      → get_job_by_id x.id jobs ≡ some x
      → let (counted, n) = increment_job_attempts x.id jobs in
        let jobs' = reschedule_job x.id next counted in
        (n ≡ attempts_of x.attempts + 1)
        × (get_job_by_id j jobs' ≡ (
            if str_eq x.id j
            then some (record x { attempts = some n; run_at = next })
            else get_job_by_id j jobs))
  unfolding increment_job_attempts reschedule_job
  reschedule-increment x jobs j next found = ground (
    arith,
    get_job_by_id-update next_attempt x.id j jobs (λ y. refl),
    get_job_by_id-update (λ y. record y { run_at = next }) x.id j
        (update_job next_attempt x.id jobs) (λ y. refl),
    eq_iff x.id j,
  )

is_event_processed-append :
    (e x : String) (arr : List String)
    → is_event_processed e (arr ++ x ∷ []) ≡ (if is_event_processed e arr then true else str_eq x e)
unfolding is_event_processed
is_event_processed-append e x [] = ground arith
is_event_processed-append e x (y ∷ arr) = ground (arith, is_event_processed-append e x arr)

-- Marking an event makes it processed, changes no other event's answer, and marking it again
-- changes nothing.
pub mark_event_processed_sound :
    (e x : String) (arr : List String)
    → (is_event_processed e (mark_event_processed x arr)
        ≡ (if str_eq x e then true else is_event_processed e arr))
      × (mark_event_processed x (mark_event_processed x arr) ≡ mark_event_processed x arr)
unfolding mark_event_processed
mark_event_processed_sound e x arr = (
  ground (arith, is_event_processed-append e x arr, eq_iff x e),
  ground (arith, is_event_processed-append x x arr, str_eq_refl x),
)

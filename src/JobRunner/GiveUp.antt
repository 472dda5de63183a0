-- ===== src/JobRunner/GiveUp.antt =====
-- src/services/jobRunner.js: a trial's revocation that keeps failing.
use relay_cerebro_infra.Base.{
  ℕ, suc, zero, ◌+◌, ◌-◌, ◌*◌, ◌^◌, ◌<◌, String, false, Option, none, some, List, [], ◌∷◌, ◌++◌,
  ◌≡◌, refl, arith, leb, str_eq, str_eq_refl, if◌then◌else◌, Bool-cases, inl, inr, ap, sym, subst,
  ◌∙◌,
}
use relay_cerebro_infra.Base.Dict.{lookup, insert, lookup-insert, lookup-remove}
use relay_cerebro_infra.JobStore.{
  Job, Lock, LockMap, revoke_trial, acquire_lock, release_lock, get_job_by_id, attempts_of,
  increment_job_attempts, next_attempt, mark_job_as_processed,
}
use relay_cerebro_infra.JobStore.Laws.{
  reschedule-increment, get_job_by_id-remove, get_job_by_id-update,
}
use relay_cerebro_infra.StateMachine.{Event, Action, failed, Services}
use relay_cerebro_infra.StateMachine.Process.{Relay}
use relay_cerebro_infra.JobRunner.{
  Settings, Runner, revoke_action, back_off, after_revoke, run_by_type, or_copy, run_job,
}

-- The job after a revocation that failed as the `n`th attempt, if any are left.
abbrev pub postponed : Settings → ℕ → Job Event → Option (Job Event)
postponed st later x =
    let n = attempts_of x.attempts + 1 in
    if leb st.max_attempts n
    then none
    else some (record x {
      attempts = some n;
      run_at = later + st.backoff_base_ms * 2 ^ (n - 1) + st.jitter;
    })

back_off-postpones :
    (st : Settings) (later : ℕ) (x : Job Event) (r : Relay) (k : String)
    → get_job_by_id x.id r.jobs ≡ some x
    → get_job_by_id k (back_off st later x r).jobs
      ≡ (if str_eq x.id k then postponed st later x else get_job_by_id k r.jobs)
unfolding back_off mark_job_as_processed increment_job_attempts
back_off-postpones st later x r k found =
    let counted = (increment_job_attempts x.id r.jobs).0 in
    let next = later + st.backoff_base_ms * 2 ^ (attempts_of x.attempts + 1 - 1) + st.jitter in
    let (count, put_off) = reschedule-increment x r.jobs k next found in
    elim (Bool-cases (leb st.max_attempts (attempts_of x.attempts + 1))) [
      | inl e ↦
          rw (count, e)
            (ground (
              arith,
              get_job_by_id-remove x.id k counted,
              get_job_by_id-update next_attempt x.id k r.jobs (λ y. refl),
            ))
      | inr e ↦ rw (count, e) (rw count at put_off)
    ]

abbrev issued : Action → Relay → Relay
issued a r = record r { actions = r.actions ++ a ∷ [] }

failed_run :
    (sv : Services) (st : Settings) (now later : ℕ) (x : Job Event) (r : Relay)
    → x.job_type ≡ revoke_trial
    → sv.execute (revoke_action x.payload) ≡ failed
    → or_copy later x r (run_by_type sv st now later x x.job_type r)
      ≡ back_off st later x (issued (revoke_action x.payload) r)
unfolding or_copy run_by_type after_revoke
failed_run sv st now later x r ty fails = rw (ty, fails) refl

back_off-actions :
    (st : Settings) (later : ℕ) (x : Job Event) (r : Relay)
    → (back_off st later x r).actions ≡ r.actions
unfolding back_off
back_off-actions st later x r = ground arith

lock-freed :
    (k : String) (ttl token now : ℕ) (locks : LockMap)
    → lookup k (
        release_lock k
          (some token)
          (insert k (record { token = token; expires_at = now + ttl }) locks))
      ≡ none
unfolding release_lock
lock-freed k ttl token now locks =
    let l : Lock = record { token = token; expires_at = now + ttl } in
    ground (arith, lookup-insert k k l locks, lookup-remove k k (insert k l locks), str_eq_refl k)

-- One run of a revocation job that is stored, and whose lock is free, when the action fails.
run_job-postpones :
    (sv : Services) (st : Settings) (token now later : ℕ) (x : Job Event) (r : Runner) (k : String)
    → get_job_by_id x.id r.relay.jobs ≡ some x
    → lookup x.id r.locks ≡ none
    → x.job_type ≡ revoke_trial
    → sv.execute (revoke_action x.payload) ≡ failed
    → let after = run_job sv st token now later x r in
      (get_job_by_id k after.relay.jobs
        ≡ (if str_eq x.id k then postponed st later x else get_job_by_id k r.relay.jobs))
      × (lookup x.id after.locks ≡ none)
      × (after.relay.actions ≡ r.relay.actions ++ revoke_action x.payload ∷ [])
unfolding run_job acquire_lock
run_job-postpones sv st token now later x r k found free ty fails =
    let r' = issued (revoke_action x.payload) r.relay in
    rw (free, failed_run sv st now later x r.relay ty fails)
      (
        back_off-postpones st later x r' k found,
        lock-freed x.id st.lock_ttl_ms token now r.locks,
        back_off-actions st later x r',
      )

-- The runs of one job at the given times: each takes the job as it is stored then.
abbrev pub run_found : Services → Settings → ℕ → Option (Job Event) → Runner → Runner
run_found sv st t none r = r
run_found sv st t (some x) r = run_job sv st t t t x r

unfoldable pub run_again : Services → Settings → String → List ℕ → Runner → Runner
run_again sv st id [] r = r
run_again sv st id (t ∷ times) r =
    run_again sv st id times (run_found sv st t (get_job_by_id id r.relay.jobs) r)

abbrev pub length : List ℕ → ℕ
length [] = 0
length (t ∷ times) = suc (length times)

abbrev pub repeated : ℕ → Action → List Action
repeated zero a = []
repeated (suc n) a = a ∷ repeated n a

run_again-found :
    (sv : Services) (st : Settings) (x : Job Event) (t : ℕ) (times : List ℕ) (r : Runner)
    → get_job_by_id x.id r.relay.jobs ≡ some x
    → run_again sv st x.id (t ∷ times) r ≡ run_again sv st x.id times (run_job sv st t t t x r)
unfolding run_again
run_again-found sv st x t times r found =
    ap (λ o. run_again sv st x.id times (run_found sv st t o r)) found

append_repeated :
    (l : List Action) (a : Action) (more : List Action) → (l ++ a ∷ []) ++ more ≡ l ++ a ∷ more
append_repeated [] a more = refl
append_repeated (b ∷ l) a more = ap (λ z. b ∷ z) (append_repeated l a more)

-- What the runs leave: no job, the revocations sent, and the other job `k` as it was.
abbrev GivenUp : Job Event → ℕ → Runner → String → Runner → Type 0
GivenUp x n r k after =
    (get_job_by_id x.id after.relay.jobs ≡ none)
    × (after.relay.actions ≡ r.relay.actions ++ repeated n (revoke_action x.payload))
    × (get_job_by_id k after.relay.jobs ≡ get_job_by_id k r.relay.jobs)

-- A stored revocation job whose lock is free and whose revocation `executeAction` answers every time
-- with `ok: false`, which it does for an incomplete payload and where its call throws in it, but not
-- where a router refuses, is tried exactly as often as its attempts allow: run that many times, it has
-- issued that many revocations and is gone from the store, while every other job is found as before.
pub run_again-gives_up :
    (sv : Services) (st : Settings) (x : Job Event) (times : List ℕ) (r : Runner) (k : String)
    → get_job_by_id x.id r.relay.jobs ≡ some x
    → lookup x.id r.locks ≡ none
    → x.job_type ≡ revoke_trial
    → sv.execute (revoke_action x.payload) ≡ failed
    → attempts_of x.attempts < st.max_attempts
    → attempts_of x.attempts + length times ≡ st.max_attempts
    → str_eq x.id k ≡ false
    → let after = run_again sv st x.id times r in
      (get_job_by_id x.id after.relay.jobs ≡ none)
      × (after.relay.actions ≡ r.relay.actions ++ repeated (length times) (revoke_action x.payload))
      × (get_job_by_id k after.relay.jobs ≡ get_job_by_id k r.relay.jobs)
unfolding run_again
run_again-gives_up sv st x [] r k found free ty fails below sum other_job = absurd (omega arith)
run_again-gives_up sv st x (t ∷ []) r k found free ty fails below sum other_job =
    let (mine, free', acts) = run_job-postpones sv st t t t x r x.id found free ty fails in
    let theirs = (run_job-postpones sv st t t t x r k found free ty fails).0 in
    subst (GivenUp x 1 r k) (sym (run_again-found sv st x t [] r found))
      (ground (arith, str_eq_refl x.id), acts, ground arith)
run_again-gives_up sv st x (t ∷ u ∷ times) r k found free ty fails below sum other_job =
    let (mine, free', acts) = run_job-postpones sv st t t t x r x.id found free ty fails in
    let theirs = (run_job-postpones sv st t t t x r k found free ty fails).0 in
    let n = attempts_of x.attempts + 1 in
    let x' : Job Event = record x {
      attempts = some n;
      run_at = t + st.backoff_base_ms * 2 ^ (n - 1) + st.jitter;
    } in
    let found' : get_job_by_id x.id (run_job sv st t t t x r).relay.jobs ≡ some x' =
      ground (arith, str_eq_refl x.id) in
    let (gone, sent, rest) =
      run_again-gives_up sv st x' (u ∷ times) (run_job sv st t t t x r) k found' free' ty fails
        (omega arith) (omega arith) other_job in
    subst (GivenUp x (suc (suc (length times))) r k)
      (sym (run_again-found sv st x t (u ∷ times) r found))
      (
        gone,
        sent
            ∙ ap (λ l. l ++ repeated (suc (length times)) (revoke_action x.payload)) acts
            ∙ append_repeated r.relay.actions (revoke_action x.payload) _,
        rest ∙ ground arith,
      )

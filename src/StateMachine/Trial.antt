-- ===== src/StateMachine/Trial.antt =====
-- src/services/stateMachine.js: a trial's access and the job that ends it.
use relay_cerebro_infra.Base.{
  ℕ, ◌+◌, ◌*◌, ◌≤◌, String, Bool, true, some, List, [], ◌∷◌, ◌++◌, ◌≡◌, refl, ◌≢◌, arith, leb, sym,
  ap, subst, ◌∙◌, inl, inr, Bool-cases,
}
use relay_cerebro_infra.JobStore.{Job, revoke_trial, add_job, get_due_jobs}
use relay_cerebro_infra.JobRunner.{revoke_action, field_of}
use relay_cerebro_infra.StateMachine.{
  absent, revoke_session, Event, ActionResult, done, failed, threw, Services, trial_requested,
  EventType,
}
use relay_cerebro_infra.StateMachine.Validate.{validate}
use relay_cerebro_infra.StateMachine.Process.{
  Relay, Reply, text_of, minutes_or_five, trial_job, retry_job, settle, perform, decide,
  process_event, authorize_action,
}
use relay_cerebro_infra.StateMachine.Outcomes.{asked, process_event-cases}

-- A job is among the given ones.
abbrev pub AmongJobs : Job Event → List (Job Event) → Type 0
AmongJobs j jobs =
    (before : List (Job Event)) × (after : List (Job Event)) × (jobs ≡ before ++ j ∷ after)

due-append :
    (time : ℕ) (a b : List (Job Event))
    → get_due_jobs time (a ++ b) ≡ get_due_jobs time a ++ get_due_jobs time b
unfolding get_due_jobs
due-append time [] b = refl
due-append time (j ∷ a) b = elim (Bool-cases (leb j.run_at time)) [
  | inl e ↦ rw (e) (ap (λ l. j ∷ l) (due-append time a b))
  | inr e ↦ rw (e) (due-append time a b)
]

AmongJobs-due :
    (time : ℕ) (j : Job Event) (jobs : List (Job Event))
    → j.run_at ≤ time
    → AmongJobs j jobs
    → AmongJobs j (get_due_jobs time jobs)
unfolding get_due_jobs
AmongJobs-due time j jobs h (before, after, q) =
    let e : leb j.run_at time ≡ true = ground arith in
    (
      get_due_jobs time before,
      get_due_jobs time after,
      rw (q, due-append time before (j ∷ after), e) refl,
    )

append_cons :
    (a : List (Job Event)) (j x : Job Event) (b : List (Job Event))
    → (a ++ j ∷ b) ++ x ∷ [] ≡ a ++ j ∷ (b ++ x ∷ [])
append_cons [] j x b = refl
append_cons (y ∷ a) j x b = ap (λ l. y ∷ l) (append_cons a j x b)

AmongJobs-add :
    (j x : Job Event) (jobs : List (Job Event)) → AmongJobs j jobs → AmongJobs j (add_job x jobs)
unfolding add_job
AmongJobs-add j x jobs (before, after, q) =
    (before, after ++ x ∷ [], ap (λ l. l ++ x ∷ []) q ∙ append_cons before j x after)

settle-keeps :
    (sv : Services) (later : ℕ) (e : Event) (id : String) (res : ActionResult) (r : Relay)
    (j : Job Event)
    → AmongJobs j r.jobs
    → AmongJobs j (settle sv later e id res r).0.jobs
unfolding settle
settle-keeps sv later e id done r j m = m
settle-keeps sv later e id failed r j m =
    AmongJobs-add j (retry_job sv later e r.ids_drawn) r.jobs m
settle-keeps sv later e id threw r j m = AmongJobs-add j (retry_job sv later e r.ids_drawn) r.jobs m

settle-actions :
    (sv : Services) (later : ℕ) (e : Event) (id : String) (res : ActionResult) (r : Relay)
    → (settle sv later e id res r).0.actions ≡ r.actions
unfolding settle
settle-actions sv later e id done r = refl
settle-actions sv later e id failed r = refl
settle-actions sv later e id threw r = refl

-- What a trial leaves behind, of an output of `processEvent`.
abbrev Scheduled : Services → ℕ → ℕ → Event → Relay → Relay × Reply → Type 0
Scheduled sv now time e r out =
    (out.0.actions ≡ r.actions ++ authorize_action e.payload ∷ [])
    × ((j : Job Event) × (j.job_type ≡ revoke_trial)
        × (j.run_at ≡ now + minutes_or_five e.payload.trial_minutes * 60 * 1000)
        × (revoke_action j.payload
            ≡ revoke_session (field_of (text_of e.payload.mik_id)) absent
                (field_of (text_of e.payload.mac)))
        × AmongJobs j (get_due_jobs time out.0.jobs))

decide-Scheduled :
    (sv : Services) (now later : ℕ) (e : Event) (id : String) (r : Relay) (time : ℕ)
    → now + minutes_or_five e.payload.trial_minutes * 60 * 1000 ≤ time
    → Scheduled sv now time e r (decide sv now later e id trial_requested (asked now e r))
unfolding decide perform add_job
decide-Scheduled sv now later e id r time late = (
  settle-actions sv later e id (sv.execute (authorize_action e.payload)) _,
  (
    trial_job sv now id e.payload r,
    refl,
    refl,
    refl,
    AmongJobs-due time (trial_job sv now id e.payload r) _ late (
        settle-keeps sv later e id (sv.execute (authorize_action e.payload)) _
          (trial_job sv now id e.payload r) (r.jobs, [], refl)),
  ),
)

validate-type :
    (known : String → Bool) (e : Event) (id : String) (t u : EventType)
    → validate known e ≡ some (id, t)
    → e.event_type ≡ some u
    → t ≡ u
unfolding validate
validate-type known e id t u v q = ground arith

-- When processing a trial's event has issued any action, whatever came of it, then the action is
-- the authorization of the event's pedido, router, ip and mac, and a job is stored whose time is the
-- event's minutes (5 when it names none) after the event was processed, which is handed to the job
-- runner from then on, and for which the runner issues the revocation of the event's mac at its
-- router, without an ip.
pub trial-scheduled :
    (sv : Services) (now later : ℕ) (e : Event) (r : Relay) (time : ℕ)
    → e.event_type ≡ some trial_requested
    → (process_event sv now later e r).0.actions ≢ r.actions
    → now + minutes_or_five e.payload.trial_minutes * 60 * 1000 ≤ time
    → ((process_event sv now later e r).0.actions ≡ r.actions ++ authorize_action e.payload ∷ [])
      × ((j : Job Event) × (j.job_type ≡ revoke_trial)
          × (j.run_at ≡ now + minutes_or_five e.payload.trial_minutes * 60 * 1000)
          × (revoke_action j.payload
              ≡ revoke_session
                  (field_of (text_of e.payload.mik_id))
                  absent
                  (field_of (text_of e.payload.mac)))
          × AmongJobs j (get_due_jobs time (process_event sv now later e r).0.jobs))
trial-scheduled sv now later e r time ty acted late = elim (process_event-cases sv now later e r) [
  | inl q ↦ absurd (ground arith)
  | inr (id, t, v, inl q) ↦ absurd (ground arith)
  | inr (id, t, v, inr (inl q)) ↦ absurd (ground arith)
  | inr (id, t, v, inr (inr q)) ↦
      let same = validate-type sv.known_router e id t trial_requested v ty in
      subst (Scheduled sv now time e r)
        (sym (q ∙ ap (λ u. decide sv now later e id u (asked now e r)) same))
        (decide-Scheduled sv now later e id r time late)
]

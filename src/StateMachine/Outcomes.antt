-- ===== src/StateMachine/Outcomes.antt =====
-- src/services/stateMachine.js: what each reply of `processEvent` says of the state it leaves.
use relay_cerebro_infra.Base.{
  ℕ, ◌+◌, String, Bool, true, false, some, List, [], ◌∷◌, ◌++◌, ◌≡◌, refl, ◌⊎◌, Option-cases, arith,
  inl, inr, Bool-cases, ap, sym, subst, ◌∙◌,
}
use relay_cerebro_infra.JobStore.{Job, add_job, mark_event_processed}
use relay_cerebro_infra.StateMachine.{
  EventType, trial_requested, release_requested, revoke_requested, payment_confirmed, unknown_type,
  Event, revoke_session, ActionResult, done, failed, threw, Services,
}
use relay_cerebro_infra.StateMachine.Validate.{validate}
use relay_cerebro_infra.StateMachine.Process.{
  Relay, Reply, ok, invalid, circuit_open, peer_offline, wrong_type, exec_failed, unhandled,
  ask_breaker, or_else, schedule, trial_job, retry_job, settle, perform, decide, process_valid,
  process_event, authorize_action,
}

-- The replies that refuse an event before any action.
abbrev pub is_refusal : Reply → Bool
is_refusal ok = false
is_refusal invalid = true
is_refusal circuit_open = true
is_refusal peer_offline = true
is_refusal wrong_type = true
is_refusal exec_failed = false
is_refusal unhandled = false

-- The jobs that a trial adds before its action.
abbrev pub trial_jobs : Services → ℕ → String → Event → EventType → Relay → List (Job Event)
trial_jobs sv now id e trial_requested r = trial_job sv now id e.payload r ∷ []
trial_jobs sv now id e release_requested r = []
trial_jobs sv now id e revoke_requested r = []
trial_jobs sv now id e payment_confirmed r = []
trial_jobs sv now id e (unknown_type t) r = []

abbrev pub ids_after : EventType → Relay → ℕ
ids_after trial_requested r = r.ids_drawn + 1
ids_after release_requested r = r.ids_drawn
ids_after revoke_requested r = r.ids_drawn
ids_after payment_confirmed r = r.ids_drawn
ids_after (unknown_type t) r = r.ids_drawn

-- The jobs that follow a reply: a retry of the event, unless the reply is `ok`.
abbrev pub retry_jobs : Services → ℕ → Event → Reply → ℕ → List (Job Event)
retry_jobs sv later e ok n = []
retry_jobs sv later e invalid n = []
retry_jobs sv later e circuit_open n = []
retry_jobs sv later e peer_offline n = []
retry_jobs sv later e wrong_type n = []
retry_jobs sv later e exec_failed n = retry_job sv later e n ∷ []
retry_jobs sv later e unhandled n = retry_job sv later e n ∷ []

-- What an event that is acted on leaves.
pub record Settled (sv : Services) (now later : ℕ) (e : Event) (id : String) (t : EventType)
    (r : Relay) (out : Relay × Reply) : Type 0 where
  pub marked : out.0.processed ≡ mark_event_processed id r.processed
  pub queued :
      out.0.jobs
      ≡ (r.jobs ++ trial_jobs sv now id e t r) ++ retry_jobs sv later e out.1 (ids_after t r)

append_nil : (jobs : List (Job Event)) → jobs ++ [] ≡ jobs
append_nil [] = refl
append_nil (j ∷ jobs) = ap (λ l. j ∷ l) (append_nil jobs)

nil_first : (jobs rest : List (Job Event)) → jobs ++ rest ≡ (jobs ++ []) ++ rest
nil_first jobs rest = ap (λ l. l ++ rest) (sym (append_nil jobs))

settle-queued :
    (sv : Services) (later : ℕ) (e : Event) (id : String) (res : ActionResult) (r : Relay)
    → let out = settle sv later e id res r in
      (out.0.processed ≡ mark_event_processed id r.processed)
      × (out.0.jobs ≡ r.jobs ++ retry_jobs sv later e out.1 r.ids_drawn)
unfolding settle add_job
settle-queued sv later e id done r = (refl, sym (append_nil r.jobs))
settle-queued sv later e id failed r = (refl, refl)
settle-queued sv later e id threw r = (refl, refl)

settle-decided :
    (sv : Services) (later : ℕ) (e : Event) (id : String) (res : ActionResult) (r : Relay)
    → is_refusal (settle sv later e id res r).1 ≡ false
unfolding settle
settle-decided sv later e id done r = refl
settle-decided sv later e id failed r = refl
settle-decided sv later e id threw r = refl

decide-Settled :
    (sv : Services) (now later : ℕ) (e : Event) (id : String) (t : EventType) (r : Relay)
    → is_refusal (decide sv now later e id t r).1 ≡ false
    → Settled sv now later e id t r (decide sv now later e id t r)
unfolding decide perform settle add_job
decide-Settled sv now later e id trial_requested r h = record {
  marked = (settle-queued sv later e id (sv.execute (authorize_action e.payload)) _).0;
  queued = (settle-queued sv later e id (sv.execute (authorize_action e.payload)) _).1;
}
decide-Settled sv now later e id release_requested r h = record {
  marked = (settle-queued sv later e id (sv.execute (authorize_action e.payload)) _).0;
  queued =
      (settle-queued sv later e id (sv.execute (authorize_action e.payload)) _).1
      ∙ nil_first r.jobs _;
}
decide-Settled sv now later e id revoke_requested r h = record {
  marked = (settle-queued sv later e id (sv.execute _) _).0;
  queued = (settle-queued sv later e id (sv.execute _) _).1 ∙ nil_first r.jobs _;
}
decide-Settled sv now later e id payment_confirmed r h = elim (Bool-cases sv.can_mark_pending) [
  | inl c ↦ rw (c) (record { marked = refl; queued = sym (append_nil _ ∙ append_nil r.jobs) })
  | inr c ↦ rw (c) (record { marked = refl; queued = nil_first r.jobs _ })
]
decide-Settled sv now later e id (unknown_type x) r h = ground arith

decide-wrong_type :
    (sv : Services) (now later : ℕ) (e : Event) (id : String) (t : EventType) (r : Relay)
    → is_refusal (decide sv now later e id t r).1 ≡ true
    → (decide sv now later e id t r).0 ≡ r
unfolding decide perform
decide-wrong_type sv now later e id trial_requested r h = absurd (
    ground (
      arith,
      settle-decided sv later e id (sv.execute (authorize_action e.payload))
          (record (schedule (trial_job sv now id e.payload r) r) {
            actions = r.actions ++ authorize_action e.payload ∷ [];
          }),
    ))
decide-wrong_type sv now later e id release_requested r h = ground (
  arith,
  settle-decided sv later e id (sv.execute (authorize_action e.payload))
      (record r { actions = r.actions ++ authorize_action e.payload ∷ [] }),
)
decide-wrong_type sv now later e id revoke_requested r h =
    let a = revoke_session e.payload.mik_id e.payload.ip e.payload.mac in
    ground (
      arith,
      settle-decided sv later e id (sv.execute a) (record r { actions = r.actions ++ a ∷ [] }),
    )
decide-wrong_type sv now later e id payment_confirmed r h =
    ground (arith, settle-decided sv later e id)
decide-wrong_type sv now later e id (unknown_type x) r h = refl

-- The relay after the breaker was asked.
abbrev pub asked : ℕ → Event → Relay → Relay
asked now e r = record r {
  breaker = (ask_breaker now (or_else e.payload.mik_id e.payload.router_id) r.breaker).0;
}

pub process_valid-cases :
    (sv : Services) (now later : ℕ) (e : Event) (id : String) (t : EventType) (r : Relay)
    → let out = process_valid sv now later e id t r in
      (out ≡ (asked now e r, circuit_open))
      ⊎ (out ≡ (asked now e r, peer_offline))
      ⊎ (out ≡ decide sv now later e id t (asked now e r))
unfolding process_valid
process_valid-cases sv now later e id t r = ground arith

pub process_event-cases :
    (sv : Services) (now later : ℕ) (e : Event) (r : Relay)
    → let out = process_event sv now later e r in
      (out ≡ (r, invalid))
      ⊎ ((id : String) × (t : EventType) × (validate sv.known_router e ≡ some (id, t))
          × ((out ≡ (asked now e r, circuit_open))
              ⊎ (out ≡ (asked now e r, peer_offline))
              ⊎ (out ≡ decide sv now later e id t (asked now e r))))
unfolding process_event
process_event-cases sv now later e r = elim (Option-cases (validate sv.known_router e)) [
  | inl n ↦ inl (rw (n) refl)
  | inr ((id, t), c) ↦ inr (id, t, c, rw (c) (process_valid-cases sv now later e id t r))
]

abbrev Clean : Relay → Relay × Reply → Type 0
Clean r out = is_refusal out.1 ≡ true → out.0 ≡ record r { breaker = out.0.breaker }

-- An event that is refused (by the validation, an open circuit, an offline peer or an unknown type)
-- changes nothing but the breaker: no job, no mark, no action, no pending payment.
pub process_event-refuses_cleanly :
    (sv : Services) (now later : ℕ) (e : Event) (r : Relay)
    → is_refusal (process_event sv now later e r).1 ≡ true
    → (process_event sv now later e r).0
      ≡ record r { breaker = (process_event sv now later e r).0.breaker }
process_event-refuses_cleanly sv now later e r h = elim (process_event-cases sv now later e r) [
  | inl q ↦ subst (Clean r) (sym q) (λ g. refl) h
  | inr (id, t, v, inl q) ↦ subst (Clean r) (sym q) (λ g. refl) h
  | inr (id, t, v, inr (inl q)) ↦ subst (Clean r) (sym q) (λ g. refl) h
  | inr (id, t, v, inr (inr q)) ↦
      subst (Clean r) (sym q)
        (λ g.
          let d = decide-wrong_type sv now later e id t (asked now e r) g in
          subst (λ x. x ≡ record r { breaker = x.breaker }) (sym d) refl)
        h
]

moved :
    (sv : Services) (now later : ℕ) (e : Event) (id : String) (t : EventType) (r : Relay)
    {out : Relay × Reply}
    → Settled sv now later e id t (asked now e r) out
    → Settled sv now later e id t r out
moved sv now later e id trial_requested r s = record { marked = s.marked; queued = s.queued }
moved sv now later e id release_requested r s = record { marked = s.marked; queued = s.queued }
moved sv now later e id revoke_requested r s = record { marked = s.marked; queued = s.queued }
moved sv now later e id payment_confirmed r s = record { marked = s.marked; queued = s.queued }
moved sv now later e id (unknown_type x) r s = record { marked = s.marked; queued = s.queued }

-- An event that is not refused has passed the validation; afterwards it is marked processed, and
-- the jobs are those from before, the revocation of a trial, and, exactly when the reply is not
-- ok, one retry of the event 30 seconds later.
pub process_event-settles :
    (sv : Services) (now later : ℕ) (e : Event) (r : Relay)
    → is_refusal (process_event sv now later e r).1 ≡ false
    → (id : String) × (t : EventType) × (validate sv.known_router e ≡ some (id, t))
      × Settled sv now later e id t r (process_event sv now later e r)
process_event-settles sv now later e r h = elim (process_event-cases sv now later e r) [
  | inl q ↦ absurd (ground arith)
  | inr (id, t, v, inl q) ↦ absurd (ground arith)
  | inr (id, t, v, inr (inl q)) ↦ absurd (ground arith)
  | inr (id, t, v, inr (inr q)) ↦ (
    id,
    t,
    v,
    subst (Settled sv now later e id t r) (sym q) (
        moved sv now later e id t r (
          decide-Settled sv now later e id t (asked now e r)
            (subst (λ o. is_refusal o.1 ≡ false) q h))),
  )
]

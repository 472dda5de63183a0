-- ===== src/StateMachine/Breaker.antt =====
-- src/services/stateMachine.js with src/services/circuitBreaker.js: the breaker over a sequence of
-- events. Nothing in the repository calls `recordFailure` or `recordSuccess`.
use relay_cerebro_infra.Base.{
  ℕ, String, List, [], ◌∷◌, ◌≡◌, refl, ◌≢◌, true, arith, str_eq, inl, inr, Bool-cases, Option-cases,
  ap, subst, sym,
}
use relay_cerebro_infra.CircuitBreaker.{
  Store, Entry, closed, get, allow_entry, allow_request, default_options,
}
use relay_cerebro_infra.CircuitBreaker.Invariant.{get-insert}
use relay_cerebro_infra.StateMachine.{
  Field, absent, text, other, Event, Services, EventType, trial_requested, release_requested,
  revoke_requested, payment_confirmed, unknown_type, ActionResult, done, failed, threw,
}
use relay_cerebro_infra.StateMachine.Process.{
  Relay, Reply, ask_breaker, or_else, is_peer_offline, settle, perform, decide, circuit_open,
  process_valid, process_event,
}
use relay_cerebro_infra.StateMachine.Outcomes.{asked}
use relay_cerebro_infra.StateMachine.Validate.{validate}
use relay_cerebro_infra.Base.Dict.{lookup}

-- One event, with the two times and the services it meets.
pub record Arrival : Type 0 where
  pub services : Services
  pub now : ℕ
  pub later : ℕ
  pub event : Event

unfoldable pub process_all : List Arrival → Relay → Relay
process_all [] r = r
process_all (a ∷ more) r = process_all more (process_event a.services a.now a.later a.event r).0

abbrev AllClosed : Store → Type 0
AllClosed store = (k : String) → (get k store).state ≡ closed

allow_entry-closed :
    (now : ℕ) (s : Entry) → s.state ≡ closed → allow_entry default_options now s ≡ (s, true)
unfolding allow_entry
allow_entry-closed now s h = rw (h) refl

allow_request-closed :
    (now : ℕ) (k : String) (store : Store)
    → AllClosed store
    → AllClosed (allow_request default_options now k store).0
      × ((allow_request default_options now k store).1 ≡ true)
unfolding allow_request
allow_request-closed now k store h = (
  λ j. ground (
    arith,
    get-insert k j (allow_entry default_options now (get k store)).0 store,
    allow_entry-closed now (get k store) (h k),
    h k,
    h j,
  ),
  ap (λ p. p.1) (allow_entry-closed now (get k store) (h k)),
)

ask_breaker-closed :
    (now : ℕ) (f : Field) (store : Store)
    → AllClosed store
    → AllClosed (ask_breaker now f store).0 × ((ask_breaker now f store).1 ≡ true)
unfolding ask_breaker
ask_breaker-closed now absent store h = (h, refl)
ask_breaker-closed now (other b) store h = (h, refl)
ask_breaker-closed now (text s) store h = elim (Bool-cases (str_eq s "")) [
  | inl e ↦ rw (e) (h, refl)
  | inr e ↦ rw (e) (allow_request-closed now s store h)
]

-- A step that leaves the breaker alone and does not answer that a circuit is open.
abbrev Passes : Relay → Relay × Reply → Type 0
Passes r out = (out.0.breaker ≡ r.breaker) × (out.1 ≢ circuit_open)

settle-Passes :
    (sv : Services) (later : ℕ) (e : Event) (id : String) (res : ActionResult) (r : Relay)
    → Passes r (settle sv later e id res r)
unfolding settle
settle-Passes sv later e id done r = (refl, ground arith)
settle-Passes sv later e id failed r = (refl, ground arith)
settle-Passes sv later e id threw r = (refl, ground arith)

decide-Passes :
    (sv : Services) (now later : ℕ) (e : Event) (id : String) (t : EventType) (r : Relay)
    → Passes r (decide sv now later e id t r)
unfolding decide perform settle
decide-Passes sv now later e id trial_requested r = settle-Passes sv later e id (sv.execute _) _
decide-Passes sv now later e id release_requested r = settle-Passes sv later e id (sv.execute _) _
decide-Passes sv now later e id revoke_requested r = settle-Passes sv later e id (sv.execute _) _
decide-Passes sv now later e id payment_confirmed r = elim (Bool-cases sv.can_mark_pending) [
  | inl c ↦ rw (c) (refl, ground arith)
  | inr c ↦ rw (c) (refl, ground arith)
]
decide-Passes sv now later e id (unknown_type x) r = (refl, ground arith)

abbrev ClosedAfter : Relay × Reply → Type 0
ClosedAfter out = AllClosed out.0.breaker × (out.1 ≢ circuit_open)

process_valid-closed :
    (sv : Services) (now later : ℕ) (e : Event) (id : String) (t : EventType) (r : Relay)
    → AllClosed r.breaker
    → ClosedAfter (process_valid sv now later e id t r)
unfolding process_valid
process_valid-closed sv now later e id t r h =
    let (after, allowed) =
      ask_breaker-closed now (or_else e.payload.mik_id e.payload.router_id) r.breaker h in
    let (same, other_reply) = decide-Passes sv now later e id t (asked now e r) in
    elim (Bool-cases (is_peer_offline sv e.payload)) [
      | inl off ↦ rw (allowed, off) (after, ground arith)
      | inr on ↦ rw (allowed, on) (subst AllClosed (sym same) after, other_reply)
    ]

process_event-closed :
    (sv : Services) (now later : ℕ) (e : Event) (r : Relay)
    → AllClosed r.breaker
    → ClosedAfter (process_event sv now later e r)
unfolding process_event
process_event-closed sv now later e r h = elim (Option-cases (validate sv.known_router e)) [
  | inl n ↦ rw (n) (h, ground arith)
  | inr ((id, t), c) ↦ rw (c) (process_valid-closed sv now later e id t r h)
]

process_all-closed :
    (arrivals : List Arrival) (r : Relay)
    → AllClosed r.breaker
    → AllClosed (process_all arrivals r).breaker
unfolding process_all
process_all-closed [] r h = h
process_all-closed (a ∷ more) r h =
    process_all-closed more (process_event a.services a.now a.later a.event r).0
      (process_event-closed a.services a.now a.later a.event r h).0

-- After any sequence of events, with any results of the actions and any services, from a relay
-- whose breaker is empty, no router's circuit is open and the next event is not refused for an open
-- circuit.
pub process_all-never_opens :
    (arrivals : List Arrival) (r : Relay) (a : Arrival) (k : String)
    → r.breaker ≡ []
    → ((get k (process_all arrivals r).breaker).state ≡ closed)
      × ((process_event a.services a.now a.later a.event (process_all arrivals r)).1 ≢ circuit_open)
unfolding get lookup
process_all-never_opens arrivals r a k empty =
    let start : AllClosed r.breaker = λ j. rw (empty) refl in
    let h = process_all-closed arrivals r start in
    (h k, (process_event-closed a.services a.now a.later a.event (process_all arrivals r) h).1)

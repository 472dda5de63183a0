-- ===== src/IdentityService/Bounds.antt =====
-- src/services/identityService.js: how often the retries of a payment can call its router.
use relay_cerebro_infra.Base.{ℕ, ◌+◌, ◌-◌, ◌≤◌, none, List, [], ◌∷◌, ◌++◌, ◌≡◌, arith, ap, sym, ◌∙◌}
use relay_cerebro_infra.IdentityService.{Payload, AuthJob, Call, Services, State}
use relay_cerebro_infra.IdentityService.Retry.{retry_authorize_pending}
use relay_cerebro_infra.IdentityService.Steps.{count, IsStep, ends, waits, tries_again, retry-steps}

-- A retry of a payload, from a state to a state, and those that follow from it: each retries the
-- payload of the job that the one before it has scheduled or, where that has thrown without calling
-- the router, its payload again, as the job runner's "-retry" copy of its job does. What happens in
-- between may change anything but the number of calls.
pub data Retries (sv : Services) : Payload → State → State → Type 0 where
  last : (now : ℕ) (p : Payload) (s : State) → Retries sv p s (retry_authorize_pending sv now p s).1
  again :
      (now : ℕ) (p : Payload) (s : State) (j : AuthJob) (between t : State)
      → (retry_authorize_pending sv now p s).1.jobs ≡ s.jobs ++ j ∷ []
      → count between.calls ≡ count (retry_authorize_pending sv now p s).1.calls
      → Retries sv j.payload between t
      → Retries sv p s t
  copied :
      (now : ℕ) (p : Payload) (s between t : State)
      → (retry_authorize_pending sv now p s).0 ≡ none
      → (retry_authorize_pending sv now p s).1.calls ≡ s.calls
      → count between.calls ≡ count s.calls
      → Retries sv p between t
      → Retries sv p s t

append-grows : (l : List AuthJob) (j : AuthJob) → l ≡ l ++ j ∷ [] → ⊥
append-grows [] j h = absurd (ground arith)
append-grows (x ∷ l) j h = append-grows l j (cc h)

append-last : (l : List AuthJob) (i j : AuthJob) → l ++ i ∷ [] ≡ l ++ j ∷ [] → i ≡ j
append-last [] i j h = cc h
append-last (x ∷ l) i j h = append-last l i j (cc h)

one-calls :
    (p : Payload) (jobs : List AuthJob) (calls : List Call) (t : State)
    → IsStep p jobs calls t
    → count t.calls ≤ count calls + 1
one-calls p jobs calls t (ends h k) = k
one-calls p jobs calls t (waits j h k e) = rw (e) (omega arith)
one-calls p jobs calls t (tries_again j h k less e) = e

-- What a scheduled job leaves of the attempts, and what its call has cost.
next-calls :
    (p : Payload) (jobs : List AuthJob) (calls : List Call) (t : State) (j : AuthJob)
    → IsStep p jobs calls t
    → t.jobs ≡ jobs ++ j ∷ []
    → p.attempt ≤ 7
    → (j.payload.attempt ≤ 7)
      × (count t.calls + (8 - j.payload.attempt) ≤ count calls + (8 - p.attempt))
next-calls p jobs calls t j (ends h k) new few = absurd (append-grows jobs j (sym h ∙ new))
next-calls p jobs calls t j (waits i h k e) new few =
    let same : i ≡ j = append-last jobs i j (sym h ∙ new) in
    let equal : j.payload.attempt ≡ p.attempt = ap (λ j. j.payload.attempt) (sym same) ∙ k in
    rw (equal, e) (few, omega arith)
next-calls p jobs calls t j (tries_again i h k less e) new few =
    let same : i ≡ j = append-last jobs i j (sym h ∙ new) in
    let equal : j.payload.attempt ≡ p.attempt + 1 = ap (λ j. j.payload.attempt) (sym same) ∙ k in
    rw (equal) (omega arith, omega arith)

-- However often a scheduled authorization is run again, by jobs that it schedules and by the copies of
-- jobs whose runs throw without calling the router, its router is called at most as often as the
-- attempts up to the eighth allow, whatever it answers. A run that throws after its call, as one whose
-- last attempt cannot be stored as failed does, is not followed by its copy here.
pub retry-bounded :
    (sv : Services) (p : Payload) (s t : State)
    → Retries sv p s t
    → p.attempt ≤ 7
    → count t.calls ≤ count s.calls + (8 - p.attempt)
retry-bounded sv p s t (last now _ _) few =
    let step = one-calls p s.jobs s.calls t (retry-steps sv now p s) in omega arith
retry-bounded sv p s t (again now _ _ j between _ new same rest) few =
    let (few_left, cost) = next-calls p s.jobs s.calls _ j (retry-steps sv now p s) new few in
    let rest_calls = retry-bounded sv j.payload between t rest few_left in omega arith
retry-bounded sv p s t (copied now _ _ between _ thrown uncalled same rest) few =
    let rest_calls = retry-bounded sv p between t rest few in omega arith

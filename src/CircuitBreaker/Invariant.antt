-- ===== src/CircuitBreaker/Invariant.antt =====
-- src/services/circuitBreaker.js: what holds of every entry, and which entry a call touches.
use relay_cerebro_infra.Base.{
  ℕ, ◌≤◌, ◌<◌, String, none, ◌≡◌, ◌≢◌, List, [], ◌∷◌, arith, eq_iff, str_eq, if◌then◌else◌,
  Bool-cases, inl, inr,
}
use relay_cerebro_infra.Base.Dict.{lookup, insert, lookup-insert}
use relay_cerebro_infra.CircuitBreaker.{
  open_, Entry, Options, Store, get, allow_entry, fail_entry, success_entry, allow_request,
  record_failure, record_success,
}

-- One call of the module, with its time.
pub data Call : Type 0 where
  asks fails : ℕ → Call
  succeeds : Call

unfoldable pub step_entry : Options → Call → Entry → Entry
unfolding allow_entry fail_entry success_entry
step_entry o (asks now) s = (allow_entry o now s).0
step_entry o (fails now) s = fail_entry o now s
step_entry o succeeds s = success_entry s

unfoldable pub step : Options → String × Call → Store → Store
unfolding allow_request record_failure record_success
step o (k, asks now) store = (allow_request o now k store).0
step o (k, fails now) store = record_failure o now k store
step o (k, succeeds) store = record_success k store

-- The first call of the list is the first made.
unfoldable pub run : Options → List (String × Call) → Store → Store
run o [] store = store
run o (c ∷ cs) store = run o cs (step o c store)

-- The circuit is open exactly when the counted failures have reached the threshold, and an open
-- circuit has a time at which it opened.
pub record IsValid (o : Options) (s : Entry) : Type 0 where
  pub open_full : s.state ≡ open_ → o.failure_threshold ≤ s.failures
  pub open_dated : s.state ≡ open_ → s.opened_at ≢ none
  pub closed_below : s.state ≢ open_ → s.failures < o.failure_threshold

pub get-insert :
    (k j : String) (s : Entry) (store : Store)
    → get j (insert k s store) ≡ (if str_eq k j then s else get j store)
unfolding get
get-insert k j s store = elim (Bool-cases (str_eq k j)) [
  | inl e ↦ rw (lookup-insert k j s store, e)
  | inr e ↦ rw (lookup-insert k j s store, e)
]

pub get-step :
    (o : Options) (k j : String) (c : Call) (store : Store)
    → get j (step o (k, c) store)
      ≡ (if str_eq k j then step_entry o c (get k store) else get j store)
unfolding step step_entry allow_request record_failure record_success
get-step o k j (asks now) store = get-insert k j _ store
get-step o k j (fails now) store = get-insert k j _ store
get-step o k j succeeds store = get-insert k j _ store

pub step_entry-IsValid :
    (o : Options) (c : Call) (s : Entry)
    → 0 < o.failure_threshold
    → IsValid o s
    → IsValid o (step_entry o c s)
unfolding step_entry
step_entry-IsValid o (asks now) s p v = ground arith
step_entry-IsValid o (fails now) s p v = ground arith
step_entry-IsValid o succeeds s p v = ground arith

pub step-IsValid :
    (o : Options) (c : String × Call) (store : Store)
    → 0 < o.failure_threshold
    → ((j : String) → IsValid o (get j store))
    → (j : String) → IsValid o (get j (step o c store))
step-IsValid o (k, c) store p v j = elim (Bool-cases (str_eq k j)) [
  | inl e ↦ rw (get-step o k j c store, e) (step_entry-IsValid o c (get k store) p (v k))
  | inr e ↦ rw (get-step o k j c store, e) (v j)
]

pub run-IsValid_from :
    (o : Options) (cs : List (String × Call)) (store : Store)
    → 0 < o.failure_threshold
    → ((j : String) → IsValid o (get j store))
    → (j : String) → IsValid o (get j (run o cs store))
unfolding run
run-IsValid_from o [] store p v = v
run-IsValid_from o (c ∷ cs) store p v =
    run-IsValid_from o cs (step o c store) p (step-IsValid o c store p v)

-- From the empty store, and with a threshold above 0, any sequence of calls on any routers leaves
-- every router's entry such that its circuit is open exactly when its failure count has reached
-- the threshold, and an open circuit knows when it opened.
pub run-IsValid :
    (o : Options) (cs : List (String × Call)) (j : String)
    → 0 < o.failure_threshold
    → IsValid o (get j (run o cs []))
unfolding get lookup
run-IsValid o cs j p = run-IsValid_from o cs [] p (λ k. ground arith) j

-- A call for one router leaves the entry of every other router as it was.
get-step_other :
    (o : Options) (k j : String) (c : Call) (store : Store)
    → k ≢ j
    → get j (step o (k, c) store) ≡ get j store
get-step_other o k j c store h = elim (Bool-cases (str_eq k j)) [
  | inl e ↦ absurd (h ((eq_iff k j).0 e))
  | inr e ↦ rw (get-step o k j c store, e)
]

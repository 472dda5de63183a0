-- ===== src/CircuitBreaker/Trace.antt =====
-- src/services/circuitBreaker.js: when a request is refused, over any sequence of calls.
use relay_cerebro_infra.Base.{
  ℕ, suc, ◌+◌, ◌-◌, ◌≤◌, ◌<◌, String, Bool, true, false, none, some, ◌≡◌, ◌↔◌, ◌||◌, ◌&&◌, List, [],
  ◌∷◌, arith, eq_iff, str_eq, str_eq_refl, leb, if◌then◌else◌, Bool-cases, inl, inr,
}
use relay_cerebro_infra.Base.Dict.{lookup}
use relay_cerebro_infra.CircuitBreaker.{
  open_, half, Entry, Options, Store, get, opened, allow_request,
}
use relay_cerebro_infra.CircuitBreaker.Invariant.{
  Call, asks, fails, succeeds, IsValid, step_entry, step, run, get-step, get-insert, run-IsValid,
}

-- Failures of router `j` since its last success, from the calls alone; `n` is the count so far.
abbrev pub count_call : ℕ → Call → ℕ
count_call n (asks now) = n
count_call n (fails now) = n + 1
count_call n succeeds = 0

pub recent_failures : String → ℕ → List (String × Call) → ℕ
recent_failures j n [] = n
recent_failures j n ((k, c) ∷ cs) = recent_failures j (if str_eq k j then count_call n c else n) cs

-- Whether some failure of `j` was recorded at most `window` before `now`.
abbrev failed_in : ℕ → ℕ → Call → Bool
failed_in now window (fails t) = leb (now - t) window
failed_in now window _ = false

pub failed_lately : String → ℕ → ℕ → List (String × Call) → Bool
failed_lately j now window [] = false
failed_lately j now window ((k, c) ∷ cs) =
    (str_eq k j && failed_in now window c) || failed_lately j now window cs

-- What the history explains of an entry.
abbrev pub dated : ℕ → ℕ → Entry → Bool
dated now window s = elim s.opened_at [ none ↦ false | some t ↦ leb (now - t) window ]

step_entry-le :
    (o : Options) (c : Call) (s : Entry) (n : ℕ)
    → s.failures ≤ n
    → (step_entry o c s).failures ≤ count_call n c
unfolding step_entry
step_entry-le o (asks now) s n h = ground arith
step_entry-le o (fails now) s n h = ground arith
step_entry-le o succeeds s n h = ground arith

run-le :
    (o : Options) (j : String) (cs : List (String × Call)) (store : Store) (n : ℕ)
    → (get j store).failures ≤ n
    → (get j (run o cs store)).failures ≤ recent_failures j n cs
unfolding run recent_failures
run-le o j [] store n h = h
run-le o j ((k, c) ∷ cs) store n h = elim (Bool-cases (str_eq k j)) [
  | inl e ↦ rw e (
      run-le o j cs (step o (k, c) store) (count_call n c) (
        rw (get-step o k j c store, e)
          (let same : k ≡ j = (eq_iff k j).0 e in step_entry-le o c (get k store) n (rw same h))))
  | inr e ↦ rw e (run-le o j cs (step o (k, c) store) n (rw (get-step o k j c store, e) h))
]

step_entry-dated :
    (o : Options) (c : Call) (now window : ℕ) (s : Entry)
    → dated now window (step_entry o c s) ≡ true
    → (dated now window s || failed_in now window c) ≡ true
unfolding step_entry
step_entry-dated o (asks t) now window s h = ground arith
step_entry-dated o (fails t) now window s h = ground arith
step_entry-dated o succeeds now window s h = ground arith

run-dated :
    (o : Options) (j : String) (now window : ℕ) (cs : List (String × Call)) (store : Store)
    → dated now window (get j (run o cs store)) ≡ true
    → (dated now window (get j store) || failed_lately j now window cs) ≡ true
unfolding run failed_lately
run-dated o j now window [] store h = ground arith
run-dated o j now window ((k, c) ∷ cs) store h = elim (Bool-cases (str_eq k j)) [
  | inl e ↦ ground (
    arith,
    run-dated o j now window cs (step o (k, c) store) h,
    get-step o k j c store,
    step_entry-dated o c now window (get k store),
    (eq_iff k j).0 e,
    e,
  )
  | inr e ↦
      ground (arith, run-dated o j now window cs (step o (k, c) store) h, get-step o k j c store, e)
]

-- A request for a router is refused exactly when its circuit is open and was opened at most
-- `recovery_ms` ago.
allow_request-refuses_iff :
    (o : Options) (now : ℕ) (j : String) (store : Store)
    → IsValid o (get j store)
    → ((allow_request o now j store).1 ≡ false)
      ↔ (((get j store).state ≡ open_) × (dated now o.recovery_ms (get j store) ≡ true))
unfolding allow_request
allow_request-refuses_iff o now j store v = (λ h. ground arith, λ h. ground arith)

-- From the empty store and with a threshold above 0, a router's request is refused only if the
-- calls made so far hold at least `failure_threshold` failures of that router after its last
-- success, one of them recorded at most `recovery_ms` before the request.
pub refused_explained :
    (o : Options) (now : ℕ) (j : String) (cs : List (String × Call))
    → 0 < o.failure_threshold
    → (allow_request o now j (run o cs [])).1 ≡ false
    → (o.failure_threshold ≤ recent_failures j 0 cs) × (failed_lately j now o.recovery_ms cs ≡ true)
unfolding get lookup
refused_explained o now j cs p h =
    let v = run-IsValid o cs j p in
    let (opened, recent) = (allow_request-refuses_iff o now j (run o cs []) v).0 h in
    (
      omega (arith, v.open_full opened, run-le o j cs [] 0 (omega arith)),
      run-dated o j now o.recovery_ms cs [] recent,
    )

-- Failures of one router, at the given times.
pub all_fail : String → List ℕ → List (String × Call)
all_fail j [] = []
all_fail j (t ∷ ts) = (j, fails t) ∷ all_fail j ts

abbrev pub length : List ℕ → ℕ
length [] = 0
length (t ∷ ts) = suc (length ts)

half_stays :
    (o : Options) (j : String) (ts : List ℕ) (store : Store)
    → (get j store).state ≡ half
    → (get j store).failures + length ts < o.failure_threshold
    → (get j (run o (all_fail j ts) store)).state ≡ half
unfolding run all_fail step_entry
half_stays o j [] store h b = h
half_stays o j (t ∷ ts) store h b =
    half_stays o j ts (step o (j, fails t) store) (ground (arith, one)) (ground (arith, one))
  where
    one :
        get j (step o (j, fails t) store)
        ≡ record (get j store) { failures = (get j store).failures + 1 }
    one = rw (get-step o j j (fails t) store, str_eq_refl j) (ground arith)

-- Once the recovery time of an open circuit has passed, the next request is let through, and the
-- circuit then takes `failure_threshold - 1` further failures without opening again: fewer
-- failures than the threshold, at any times, leave it half open.
half_open_probation :
    (o : Options) (now : ℕ) (j : String) (ts : List ℕ) (store : Store)
    → (get j store).state ≡ open_
    → o.recovery_ms < now - opened (get j store).opened_at
    → length ts < o.failure_threshold
    → ((allow_request o now j store).1 ≡ true)
      × ((get j (run o (all_fail j ts) (allow_request o now j store).0)).state ≡ half)
unfolding allow_request
half_open_probation o now j ts store h late few =
    (ground arith, half_stays o j ts _ (ground (arith, after)) (ground (arith, after)))
  where
    after :
        get j (allow_request o now j store).0 ≡ record (get j store) { state = half; failures = 0 }
    after = rw (get-insert j j _ store, str_eq_refl j) (ground arith)

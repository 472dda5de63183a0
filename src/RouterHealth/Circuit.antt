-- ===== src/RouterHealth/Circuit.antt =====
-- src/services/routerHealth.js: when a router may be attempted.
use relay_cerebro_infra.Base.{
  ℕ, suc, ◌+◌, ◌*◌, ◌<◌, String, true, false, some, List, [], ◌∷◌, ◌≡◌, refl, arith, leb, str_eq,
  if◌then◌else◌, ap, ◌∙◌,
}
use relay_cerebro_infra.Base.Dict.{lookup-insert_self}
use relay_cerebro_infra.Errors.{auth, transient, Verdict}
use relay_cerebro_infra.RouterHealth.{
  Settings, Store, auth_failed, down_transient, degraded, get_health, can_attempt, open_ms, code_or,
  next_health, update_router_health,
}

-- A refused login is recorded.
get_health-auth :
    (st : Settings) (now : ℕ) (r : String) (v : Verdict) (store : Store)
    → str_eq r "" ≡ false
    → v.class_of ≡ auth
    → let h = get_health r store in
      get_health r (update_router_health st now r v store) ≡ record h {
        last_err_code = code_or v.code h.last_err_code;
        state = auth_failed;
        open_until = now + open_ms v.open_circuit_ms (15 * 60 * 1000);
        consecutive_fails = h.consecutive_fails + 1;
      }
unfolding get_health update_router_health next_health
get_health-auth st now r v store named h = rw (named, h, lookup-insert_self) refl

-- A transient failure is recorded.
get_health-transient :
    (st : Settings) (now : ℕ) (r : String) (v : Verdict) (store : Store)
    → str_eq r "" ≡ false
    → v.class_of ≡ transient
    → let h = get_health r store in
      get_health r (update_router_health st now r v store) ≡ record h {
        last_err_code = code_or v.code h.last_err_code;
        consecutive_fails = h.consecutive_fails + 1;
        state =
            if leb st.failure_threshold (h.consecutive_fails + 1) then down_transient else degraded;
        open_until =
            if leb st.failure_threshold (h.consecutive_fails + 1)
            then now + st.recovery_timeout_ms
            else 0;
      }
unfolding get_health update_router_health next_health
get_health-transient st now r v store named h = rw (named, h, lookup-insert_self) refl

-- The store after transient failures at the given times and then at `last`.
abbrev pub after_failures : Settings → String → Verdict → List ℕ → ℕ → Store → Store
after_failures st r v [] last store = update_router_health st last r v store
after_failures st r v (now ∷ times) last store =
    after_failures st r v times last (update_router_health st now r v store)

abbrev pub count : List ℕ → ℕ
count [] = 0
count (x ∷ l) = suc (count l)

-- After any number of transient failures in a row, the last of them at `last`, a router may be
-- attempted exactly when its failures have not reached the threshold or the recovery time since the
-- last one has passed.
pub can_attempt-failures :
    (st : Settings) (r : String) (v : Verdict) (times : List ℕ) (last now : ℕ) (store : Store)
    → str_eq r "" ≡ false
    → v.class_of ≡ transient
    → can_attempt now r (after_failures st r v times last store) ≡ (
        if leb st.failure_threshold ((get_health r store).consecutive_fails + count times + 1)
        then leb (last + st.recovery_timeout_ms) now
        else true)
unfolding can_attempt
can_attempt-failures st r v [] last now store named h =
    rw (get_health-transient st last r v store named h) (ground arith)
can_attempt-failures st r v (t ∷ times) last now store named h =
    let one_more : (get_health r (update_router_health st t r v store)).consecutive_fails
          + count times
          + 1
        ≡ (get_health r store).consecutive_fails + count (t ∷ times) + 1 =
      rw (get_health-transient st t r v store named h) (omega arith) in
    can_attempt-failures st r v times last now (update_router_health st t r v store) named h
    ∙ ap (λ n. if leb st.failure_threshold n then leb (last + st.recovery_timeout_ms) now else true)
        one_more

-- A login that a router refuses closes it to attempts for the time that the verdict asks for, but a
-- transient failure that follows, while its failures are below the threshold, opens it to them at once.
pub can_attempt-auth_transient :
    (st : Settings) (r : String) (v w : Verdict) (at later now : ℕ) (ms : ℕ) (store : Store)
    → str_eq r "" ≡ false
    → v.class_of ≡ auth
    → v.open_circuit_ms ≡ some ms
    → w.class_of ≡ transient
    → (get_health r store).consecutive_fails + 2 < st.failure_threshold
    → now < at + ms
    → 0 < ms
    → (can_attempt now r (update_router_health st at r v store) ≡ false)
      × (can_attempt now r
            (update_router_health st later r w (update_router_health st at r v store))
          ≡ true)
unfolding can_attempt
can_attempt-auth_transient st r v w at later now ms store named h asked k few early positive =
    let refused = get_health-auth st at r v store named h in
    let next = update_router_health st at r v store in
    let below : leb st.failure_threshold ((get_health r next).consecutive_fails + 1) ≡ false =
      rw (refused) (ground arith) in
    (
      rw (refused, asked) (ground arith),
      rw (get_health-transient st later r w next named k, below) refl,
    )

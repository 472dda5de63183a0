-- ===== src/IdentityService.antt =====
-- src/services/identityService.js: the authorization of a pending payment, and its retries, over the
-- identity store and the health of the routers. `authorizeByPedidoIp` is a parameter that may answer
-- differently at each call, as is whether a write of the identity store succeeds; the job store's
-- writes do. `now` stands for each `Date.now()` of a call.
pub mod Refresh
pub mod Retry
mod Calls
mod Applied
mod Steps
mod Bounds
mod Payment
mod Router
mod Tests
use relay_cerebro_infra.Base.{
  ℕ, zero, suc, ◌+◌, ◌-◌, String, Bool, true, false, not, ◌&&◌, ◌||◌, Option, none, some, List, [],
  ◌∷◌, ◌++◌, leb, ltb, ◌==◌, str_eq, if◌then◌else◌, truthy, or_null,
}
use Prim.Native.String.{◌++◌ as ◌<>◌}
use relay_cerebro_infra.Errors.{
  Err, Class, setup, auth, transient, inconsistent, unknown, Verdict, classify_error,
}
use relay_cerebro_infra.IdentityStore.{
  LastSeen, Pending, PendingStatus, status_pending, status_failed, status_applied, Identity,
  get_identity, get_pending, mark_pending, mark_pending_applied, mark_pending_failed,
}
use relay_cerebro_infra.IdentityStore.Actions.{is_applied, mark_applied, prune}
use relay_cerebro_infra.RouterHealth.{Settings, Store, update_router_health}

abbrev pub prune_cooldown_ms : ℕ
prune_cooldown_ms = 60000

-- `AUTHORIZE_BACKOFF_MS`.
abbrev pub authorize_backoff_ms : List ℕ
authorize_backoff_ms = 2000 ∷ 5000 ∷ 10000 ∷ 20000 ∷ 40000 ∷ 60000 ∷ 120000 ∷ 240000 ∷ []

abbrev pub max_attempts : ℕ
max_attempts = 8

abbrev nth : List ℕ → ℕ → ℕ
nth [] i = 0
nth (x ∷ l) zero = x
nth (x ∷ l) (suc i) = nth l i

-- `AUTHORIZE_BACKOFF_MS[Math.min(attempt, AUTHORIZE_BACKOFF_MS.length - 1)]`.
unfoldable pub back_off : ℕ → ℕ
back_off attempt = nth authorize_backoff_ms (if ltb 7 attempt then 7 else attempt)

abbrev pub or_else : Option String → Option String → Option String
or_else a b = if truthy a then a else b

unfoldable pub pick_router :
    Option String → Option String → Option String → Option String → Option String
pick_router router_hint identity pending_router_id last_seen_router_id =
    or_else router_hint (or_else identity (or_else pending_router_id (or_null last_seen_router_id)))

-- The payload of an AUTHORIZE_PENDING job.
pub record Payload : Type 0 where
  pub sid : String
  pub pedido_id : String
  pub router_id : Option String
  pub router_hint : Option String
  pub identity : Option String
  pub ip : Option String
  pub mac : Option String
  pub attempt : ℕ

-- An AUTHORIZE_PENDING job; its id, `auth-<sid>-<now>-<attempt>`, is kept as these parts.
pub record AuthJob : Type 0 where
  pub id : String × ℕ × ℕ
  pub payload : Payload
  pub run_at : ℕ
  pub created_at : ℕ

-- A call of `authorizeByPedidoIp`, and what comes of it.
pub record Call : Type 0 where
  pub pedido_id : String
  pub mik_id : String
  pub ip : String
  pub mac : String

pub data CallResult : Type 0 where
  granted refused : CallResult
  threw : Err → CallResult

-- The writes of the identity store in one call.
pub data Write : Type 0 where
  seen pruned reset applied settled failed : Write

pub record Services : Type 0 where
  pub writes : Write → Bool
  pub write_error : Err
  pub has_router : String → Bool
  pub authorize : List Call → Call → CallResult
  pub date_ms : String → Option ℕ
  pub jitter : ℕ → ℕ
  pub health_settings : Settings

pub record State : Type 0 where
  pub identities : List Identity
  pub health : Store
  pub jobs : List AuthJob
  pub last_prune_at : ℕ
  pub calls : List Call

pub data Reply : Type 0 where
  sid_required no_pending_payment router_not_resolved missing_ip_or_mac : Reply
  failed_until : String → ℕ → Reply
  already_applied : String → Reply
  authorized : String → Reply
  authorization_scheduled : ℕ → Reply
  authorization_rescheduled : ℕ → Reply
  router_circuit_open : Reply
  authorize_failed : Reply
  failed_with : Verdict → Reply
  failed_after_retries : ℕ → Reply

-- What a call returns, `none` where it throws, and the state that it leaves.
abbrev pub Result : Type 0
Result = Option Reply × State

unfoldable pub action_key : String → String → String
action_key router_id pedido_id = router_id <> ":" <> pedido_id <> ":AUTHORIZE"

abbrev pub fail_code_of : Option String → String
fail_code_of none = "authorization_failed_after_retries"
fail_code_of (some c) = if str_eq c "" then "authorization_failed_after_retries" else c

abbrev pub is_failed : PendingStatus → Bool
is_failed status_pending = false
is_failed status_failed = true
is_failed status_applied = false

abbrev seen_of : (LastSeen → Option String) → Option Identity → Option String
seen_of f none = none
seen_of f (some r) = elim r.last_seen [ none ↦ none | some l ↦ f l ]

-- `existing.lastSeen`'s fields.
unfoldable pub last_seen : (LastSeen → Option String) → String → State → Option String
unfolding get_identity
last_seen f sid s = seen_of f (get_identity sid s.identities)

abbrev pub after_pruning : State → Option (List Identity × ℕ) → Bool × State
after_pruning s none = (false, s)
after_pruning s (some (all, n)) = (true, record s { identities = all })

module _ (sv : Services) (now : ℕ) where
  unfoldable pub maybe_prune : State → Bool × State
  unfolding prune
  maybe_prune s =
      if ltb (now - s.last_prune_at) prune_cooldown_ms
      then (true, s)
      else after_pruning (record s { last_prune_at = now })
          (prune sv.date_ms (sv.writes pruned) now s.identities)

  abbrev pub attempt_job : Payload → ℕ → AuthJob
  attempt_job p delay = record {
    id = (p.sid, now, p.attempt);
    payload = p;
    run_at = now + delay;
    created_at = now;
  }

  unfoldable pub schedule_authorize_pending : Payload → State → State
  unfolding back_off
  schedule_authorize_pending p s =
      let base = back_off p.attempt in
      record s { jobs = s.jobs ++ attempt_job p (base + sv.jitter base) ∷ [] }

  -- `Math.max(0, nextEligibleAt - now)`, and 0 where there is no such time.
  abbrev pub wait_ms : Option ℕ → ℕ
  wait_ms none = 0
  wait_ms (some t) = t - now

  abbrev pub after_reset : (State → Result) → State → Option (List Identity × Pending) → Result
  after_reset next s none = (none, s)
  after_reset next s (some (all, q)) = next (record s { identities = all })

  -- A payment that has failed waits for its cool-down, and is marked pending again after it.
  unfoldable pub after_cool_down : String → Pending → (State → Result) → State → Result
  unfolding mark_pending
  after_cool_down sid p next s =
      if not (is_failed p.status)
      then next s
      else if ltb 0 (wait_ms p.next_eligible_at)
      then (some (failed_until (fail_code_of p.fail_code) (wait_ms p.next_eligible_at)), s)
      else after_reset next s (
          mark_pending (sv.writes reset) now sid (some p.pedido_id) p.plan_id p.router_id
            p.expires_at p.attempts s.identities)

  abbrev pub after_settling :
      String → (Err → State → Result) → State → Option (List Identity × Bool) → Result
  after_settling key caught s none = caught sv.write_error s
  after_settling key caught s (some (all, b)) =
      (some (authorized key), record s { identities = all })

  -- The two writes after a grant, and what is thrown out of them.
  abbrev pub after_applying :
      String → Call → (Err → State → Result) → State → Option (List Identity × Bool) → Result
  after_applying sid call caught s none = caught sv.write_error s
  after_applying sid call caught s (some (all, b)) =
      after_settling (action_key call.mik_id call.pedido_id) caught (record s { identities = all })
        (mark_pending_applied (sv.writes settled) now sid call.pedido_id all)

  abbrev pub after_call : String → Call → (Err → State → Result) → State → CallResult → Result
  after_call sid call caught s granted = after_applying sid call caught s (
      mark_applied (sv.writes applied) now sid (action_key call.mik_id call.pedido_id) s.identities)
  after_call sid call caught s refused = (some authorize_failed, s)
  after_call sid call caught s (threw e) = caught e s

  -- The call of `authorizeByPedidoIp` and what follows it.
  unfoldable pub attempt : String → Call → (Err → State → Result) → State → Result
  unfolding action_key mark_applied mark_pending_applied
  attempt sid call caught s =
      after_call sid call caught (record s { calls = s.calls ++ call ∷ [] })
        (sv.authorize s.calls call)

  -- `updateRouterHealth(routerId, classifyError(err))`.
  unfoldable pub note_failure : String → Err → State → State
  unfolding update_router_health classify_error
  note_failure router_id e s = record s {
    health =
        update_router_health sv.health_settings now router_id (classify_error (some e)) s.health;
  }

-- What a catch block answers: only a transient error is scheduled.
abbrev pub by_class : Class → Verdict → Result → State → Result
by_class transient v scheduled s = scheduled
by_class setup v scheduled s = (some (failed_with v), s)
by_class auth v scheduled s = (some (failed_with v), s)
by_class inconsistent v scheduled s = (some (failed_with v), s)
by_class unknown v scheduled s = (some (failed_with v), s)

-- ===== src/IdentityService/Router.antt =====
-- src/services/identityService.js on top of src/services/authorize.js: what becomes of a failure of
-- the router.
use relay_cerebro_infra.Base.{
  ℕ, String, Bool, true, false, Option, none, some, List, [], ◌∷◌, ◌++◌, ◌≡◌, ◌≢◌, refl, arith,
  if◌then◌else◌, ap, sym, ◌∙◌, Bool-cases, inl, inr,
}
use relay_cerebro_infra.Errors.{
  Err, Class, setup, auth, transient, inconsistent, unknown, Verdict, classify_error,
}
use relay_cerebro_infra.IdentityStore.{Identity, mark_pending_applied}
use relay_cerebro_infra.IdentityStore.Actions.{is_applied, mark_applied}
use relay_cerebro_infra.RouterHealth.{can_attempt}
use relay_cerebro_infra.Authorize.{
  Attempt, returned, threw, Nodes, Session, Granting, authorize_by_pedido_ip,
}
use relay_cerebro_infra.Authorize.Commands.{PaidAccess}
use relay_cerebro_infra.Authorize.Errors.{authorize-never_transient}
use relay_cerebro_infra.IdentityService.{
  Call, CallResult, granted, refused, threw as call_threw, Services, State, Result, applied,
  settled, action_key, attempt, after_call, after_applying, after_settling, by_class, note_failure,
}
use relay_cerebro_infra.IdentityService.Refresh.{Arrival, act, caught_at_refresh}

-- `res && res.ok`, or what was thrown.
abbrev pub call_result : Attempt Granting → CallResult
call_result (returned g) = if g.ok then granted else refused
call_result (threw e) = call_threw e

-- `authorizeByPedidoIp` as the identity service calls it; each session may go its own way.
abbrev pub authorize_with :
    (List Call → Session) → Nodes → PaidAccess → List Call → Call → CallResult
authorize_with run env access calls c = call_result (
    authorize_by_pedido_ip (run calls) env access (some c.pedido_id) (some c.mik_id) (some c.ip)
      (some c.mac))

module _ (sv : Services) (now : ℕ) (a : Arrival) where
  class-jobs :
      (k : Class) (v : Verdict) (r : Result) (s : State)
      → k ≢ transient
      → (by_class k v r s).1.jobs ≡ s.jobs
  class-jobs transient v r s h = absurd (h refl)
  class-jobs setup v r s h = refl
  class-jobs auth v r s h = refl
  class-jobs inconsistent v r s h = refl
  class-jobs unknown v r s h = refl

  caught-jobs :
      (c : Call) (e : Err) (s : State)
      → (classify_error (some e)).class_of ≢ transient
      → (caught_at_refresh sv now a c e s).1.jobs ≡ s.jobs
  unfolding caught_at_refresh note_failure
  caught-jobs c e s h =
      class-jobs (classify_error (some e)).class_of _ _ (note_failure sv now c.mik_id e s) h

  module _ (calm : (classify_error (some sv.write_error)).class_of ≢ transient) where
    settling-jobs :
        (key : String) (c : Call) (s : State) (o : Option (List Identity × Bool))
        → (after_settling sv now key (caught_at_refresh sv now a c) s o).1.jobs ≡ s.jobs
    settling-jobs key c s none = caught-jobs c sv.write_error s calm
    settling-jobs key c s (some (all, b)) = refl

    applying-jobs :
        (c : Call) (s : State) (o : Option (List Identity × Bool))
        → (after_applying sv now a.sid c (caught_at_refresh sv now a c) s o).1.jobs ≡ s.jobs
    applying-jobs c s none = caught-jobs c sv.write_error s calm
    applying-jobs c s (some (all, b)) =
        settling-jobs (action_key c.mik_id c.pedido_id) c (record s { identities = all })
          (mark_pending_applied (sv.writes settled) now a.sid c.pedido_id all)

    call-jobs :
        (c : Call) (s : State) (r : CallResult)
        → ((e : Err) → r ≡ call_threw e → (classify_error (some e)).class_of ≢ transient)
        → (after_call sv now a.sid c (caught_at_refresh sv now a c) s r).1.jobs ≡ s.jobs
    call-jobs c s granted h =
        applying-jobs c s (
          mark_applied (sv.writes applied) now a.sid (action_key c.mik_id c.pedido_id) s.identities)
    call-jobs c s refused h = refl
    call-jobs c s (call_threw e) h = caught-jobs c e s (h e refl)

not_thrown : (b : Bool) (e : Err) → (if b then granted else refused) ≢ call_threw e
not_thrown true e h = absurd (ground arith)
not_thrown false e h = absurd (ground arith)

result-calm :
    (x : Attempt Granting)
    → ((e : Err) → x ≡ threw e → (classify_error (some e)).class_of ≢ transient)
    → (e : Err) → call_result x ≡ call_threw e
    → (classify_error (some e)).class_of ≢ transient
result-calm (returned g) h e k = absurd (not_thrown g.ok e k)
result-calm (threw f) h e k = h e (ap threw (cc k))

-- When a router whose circuit is closed is called for a payment, by the code of `authorizeByPedidoIp`,
-- no retry is scheduled, however the session with the router ends, where the error of a write of the
-- identity store is not one of the transient codes.
pub act-never_schedules :
    (sv : Services) (now : ℕ) (a : Arrival) (run : List Call → Session) (env : Nodes)
    (access : PaidAccess) (c : Call) (s : State)
    → sv.authorize s.calls c ≡ authorize_with run env access s.calls c
    → (classify_error (some sv.write_error)).class_of ≢ transient
    → can_attempt now c.mik_id s.health ≡ true
    → (act sv now a c s).1.jobs ≡ s.jobs
unfolding act attempt
act-never_schedules sv now a run env access c s called calm closed =
    elim (Bool-cases (is_applied a.sid (action_key c.mik_id c.pedido_id) s.identities)) [
      | inl done ↦ rw (done) refl
      | inr fresh ↦
          rw (fresh, closed)
            (call-jobs sv now a calm c (record s { calls = s.calls ++ c ∷ [] })
              (sv.authorize s.calls c)
              (λ e h.
                result-calm _
                  (authorize-never_transient (run s.calls) env access (some c.pedido_id)
                    (some c.mik_id) (some c.ip) (some c.mac))
                  e (sym called ∙ h)))
    ]

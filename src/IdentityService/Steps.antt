-- ===== src/IdentityService/Steps.antt =====
-- src/services/identityService.js: what one retry does to the jobs and to the router.
use relay_cerebro_infra.Base.{
  ℕ, suc, ◌+◌, ◌≤◌, ◌<◌, String, Bool, true, false, not, Option, none, some, List, [], ◌∷◌, ◌++◌,
  ◌≡◌, refl, arith, leb, ltb, if◌then◌else◌, str_eq, truthy, Bool-cases, inl, inr,
}
use relay_cerebro_infra.Errors.{Err, Class, Verdict, setup, auth, transient, inconsistent, unknown}
use relay_cerebro_infra.IdentityStore.{
  Identity, Pending, mark_pending, mark_pending_applied, mark_pending_failed, get_pending,
}
use relay_cerebro_infra.IdentityStore.Actions.{is_applied, mark_applied}
use relay_cerebro_infra.IdentityService.{
  failed, CallResult, by_class, after_settling, after_applying, after_call, after_reset, wait_ms,
  is_failed, failed_until, fail_code_of, last_seen, or_else, pick_router, Payload, AuthJob, Call,
  Services, State, Result, granted, refused, threw, action_key, attempt, after_cool_down,
  schedule_authorize_pending, note_failure, applied, settled, reset, max_attempts,
}
use relay_cerebro_infra.RouterHealth.{can_attempt}
use relay_cerebro_infra.IdentityService.Retry.{
  cooldown_ms, given_up, give_up, retry_later, caught_at_retry, act_again, locate_again, retry_open,
  retry_authorize_pending,
}

abbrev pub count : List Call → ℕ
count [] = 0
count (c ∷ l) = suc (count l)

count-append : (l : List Call) (c : Call) → count (l ++ c ∷ []) ≡ count l + 1
count-append [] c = refl
count-append (x ∷ l) c = omega (arith, count-append l c)

-- What a retry of `p` does, from the jobs and calls before it to the state after it: it ends, or waits
-- without a call, or is scheduled once more after a call that failed.
pub data IsStep (p : Payload) (jobs : List AuthJob) (calls : List Call) (t : State) : Type 0 where
  ends : t.jobs ≡ jobs → count t.calls ≤ count calls + 1 → IsStep p jobs calls t
  waits :
      (j : AuthJob)
      → t.jobs ≡ jobs ++ j ∷ []
      → j.payload.attempt ≡ p.attempt
      → t.calls ≡ calls
      → IsStep p jobs calls t
  tries_again :
      (j : AuthJob)
      → t.jobs ≡ jobs ++ j ∷ []
      → j.payload.attempt ≡ p.attempt + 1
      → p.attempt + 1 < 8
      → count t.calls ≤ count calls + 1
      → IsStep p jobs calls t

module _ (sv : Services) (now : ℕ) (p : Payload) where
  either :
      (b : Bool) (x y : Result) (jobs : List AuthJob) (calls : List Call)
      → IsStep p jobs calls x.1
      → IsStep p jobs calls y.1
      → IsStep p jobs calls (if b then x else y).1
  either true x y jobs calls l r = l
  either false x y jobs calls l r = r

  stays : (s : State) → IsStep p s.jobs s.calls s
  stays s = ends refl (omega arith)

  given_up-steps :
      (s : State) (o : Option (List Identity × Bool)) (calls : List Call)
      → count s.calls ≤ count calls + 1
      → IsStep p s.jobs calls (given_up s o).1
  given_up-steps s none calls h = ends refl h
  given_up-steps s (some (all, b)) calls h = ends refl h

  give_up-steps :
      (c : Call) (s : State) (calls : List Call)
      → count s.calls ≤ count calls + 1
      → IsStep p s.jobs calls (give_up sv now p c s).1
  unfolding give_up
  give_up-steps c s calls h =
      given_up-steps s
        (mark_pending_failed (sv.writes failed) now p.sid c.pedido_id
          (some "authorization_failed_after_retries") (p.attempt + 1) (some (now + cooldown_ms))
          s.identities)
        calls h

  retry_later-steps :
      (c : Call) (s : State) (calls : List Call)
      → count s.calls ≤ count calls + 1
      → IsStep p s.jobs calls (retry_later sv now p c s).1
  unfolding retry_later schedule_authorize_pending
  retry_later-steps c s calls h = elim (Bool-cases (leb max_attempts (p.attempt + 1))) [
    | inl last ↦ rw (last) (give_up-steps c s calls h)
    | inr more ↦ rw (more) (tries_again _ refl refl (ground arith) h)
  ]

  by_class-steps :
      (k : Class) (v : Verdict) (r : Result) (s : State) (calls : List Call)
      → count s.calls ≤ count calls + 1
      → IsStep p s.jobs calls r.1
      → IsStep p s.jobs calls (by_class k v r s).1
  by_class-steps transient v r s calls h step = step
  by_class-steps setup v r s calls h step = ends refl h
  by_class-steps auth v r s calls h step = ends refl h
  by_class-steps inconsistent v r s calls h step = ends refl h
  by_class-steps unknown v r s calls h step = ends refl h

  caught-steps :
      (c : Call) (e : Err) (s : State) (calls : List Call)
      → count s.calls ≤ count calls + 1
      → IsStep p s.jobs calls (caught_at_retry sv now p c e s).1
  unfolding caught_at_retry note_failure
  caught-steps c e s calls h =
      by_class-steps _ _ _ (note_failure sv now c.mik_id e s) calls h
        (retry_later-steps c (note_failure sv now c.mik_id e s) calls h)

  settling-steps :
      (key : String) (c : Call) (s : State) (o : Option (List Identity × Bool)) (calls : List Call)
      → count s.calls ≤ count calls + 1
      → IsStep p s.jobs calls (after_settling sv now key (caught_at_retry sv now p c) s o).1
  settling-steps key c s none calls h = caught-steps c sv.write_error s calls h
  settling-steps key c s (some (all, b)) calls h = ends refl h

  applying-steps :
      (c : Call) (s : State) (o : Option (List Identity × Bool)) (calls : List Call)
      → count s.calls ≤ count calls + 1
      → IsStep p s.jobs calls (after_applying sv now p.sid c (caught_at_retry sv now p c) s o).1
  applying-steps c s none calls h = caught-steps c sv.write_error s calls h
  applying-steps c s (some (all, b)) calls h =
      settling-steps (action_key c.mik_id c.pedido_id) c (record s { identities = all })
        (mark_pending_applied (sv.writes settled) now p.sid c.pedido_id all) calls h

  call-steps :
      (c : Call) (s : State) (r : CallResult) (calls : List Call)
      → count s.calls ≤ count calls + 1
      → IsStep p s.jobs calls (after_call sv now p.sid c (caught_at_retry sv now p c) s r).1
  call-steps c s granted calls h =
      applying-steps c s
        (mark_applied (sv.writes applied) now p.sid (action_key c.mik_id c.pedido_id) s.identities)
        calls h
  call-steps c s refused calls h = ends refl h
  call-steps c s (threw e) calls h = caught-steps c e s calls h

  act_again-steps : (c : Call) (s : State) → IsStep p s.jobs s.calls (act_again sv now p c s).1
  unfolding act_again attempt schedule_authorize_pending
  act_again-steps c s =
      either (is_applied p.sid (action_key c.mik_id c.pedido_id) s.identities) _ _ s.jobs s.calls
        (stays s)
        (either (not (can_attempt now c.mik_id s.health)) _ _ s.jobs s.calls
          (waits _ refl refl refl)
          (call-steps c (record s { calls = s.calls ++ c ∷ [] }) (sv.authorize s.calls c) s.calls
            (omega (arith, count-append s.calls c))))

  locate_again-steps :
      (q : Pending) (router : Option String) (s : State)
      → IsStep p s.jobs s.calls (locate_again sv now p q router s).1
  unfolding locate_again
  locate_again-steps q router s = either (not (truthy router)) _ _ s.jobs s.calls (stays s) (
      either (not (truthy (or_else p.ip (last_seen (λ l. l.ip) p.sid s)))) _ _ s.jobs s.calls
        (stays s)
        (either (not (truthy (or_else p.mac (last_seen (λ l. l.mac) p.sid s)))) _ _ s.jobs s.calls
          (stays s) (act_again-steps _ s)))

  reset-steps :
      (q : Pending) (next : State → Option String) (s : State)
      (o : Option (List Identity × Pending))
      → IsStep p s.jobs s.calls (after_reset sv now (λ s. locate_again sv now p q (next s) s) s o).1
  reset-steps q next s none = stays s
  reset-steps q next s (some (all, r)) = locate_again-steps q _ (record s { identities = all })

  open-steps :
      (q : Option Pending) (s : State) → IsStep p s.jobs s.calls (retry_open sv now p q s).1
  unfolding retry_open after_cool_down
  open-steps none s = stays s
  open-steps (some q) s =
      let router : State → Option String = λ s.
        pick_router p.router_hint p.identity (or_else q.router_id p.router_id)
          (last_seen (λ l. l.router_id) p.sid s) in
      either (not (is_failed q.status)) _ _ s.jobs s.calls (locate_again-steps q (router s) s) (
        either (ltb 0 (wait_ms sv now q.next_eligible_at))
          (some (failed_until (fail_code_of q.fail_code) (wait_ms sv now q.next_eligible_at)), s) _
          s.jobs s.calls (stays s)
          (reset-steps q router s (
            mark_pending (sv.writes reset) now p.sid (some q.pedido_id) q.plan_id q.router_id
              q.expires_at q.attempts s.identities)))

  pub retry-steps : (s : State) → IsStep p s.jobs s.calls (retry_authorize_pending sv now p s).1
  unfolding retry_authorize_pending
  retry-steps s =
      either (str_eq p.sid "") _ _ s.jobs s.calls (stays s)
        (open-steps (get_pending p.sid s.identities) s)

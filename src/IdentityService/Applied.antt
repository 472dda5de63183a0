-- ===== src/IdentityService/Applied.antt =====
-- src/services/identityService.js: a payment whose action has been applied, in both functions.
use relay_cerebro_infra.Base.{
  ℕ, ◌-◌, ◌<◌, String, true, not, Option, none, some, List, ◌≡◌, refl, ltb, truthy, str_eq, sym,
  subst, ◌∙◌,
}
use relay_cerebro_infra.IdentityStore.{Identity, Pending, get_pending, mark_pending}
use relay_cerebro_infra.IdentityStore.Actions.{is_applied}
use relay_cerebro_infra.IdentityService.{
  Payload, Call, Services, State, Result, action_key, prune_cooldown_ms, after_reset,
  after_cool_down, wait_ms, is_failed, failed_until, fail_code_of, reset, last_seen, pick_router,
  or_else,
}
use relay_cerebro_infra.IdentityService.Refresh.{Arrival, refresh_and_authorize}
use relay_cerebro_infra.IdentityService.Retry.{
  act_again, locate_again, retry_open, retry_authorize_pending,
}
use relay_cerebro_infra.IdentityService.Calls.{
  Keeps, either-Keeps, mark_pending-applied_same, refresh-applied_once,
}

module _ (sv : Services) (now : ℕ) (sid key : String) (next : State → Result) where
  reset-Keeps :
      (s : State) (q : Pending) (o : Option (List Identity × Pending))
      → ((t : State) → is_applied sid key t.identities ≡ true → Keeps t (next t).1)
      → mark_pending
          (sv.writes reset)
          now
          sid
          (some q.pedido_id)
          q.plan_id
          q.router_id
          q.expires_at
          q.attempts
          s.identities
        ≡ o
      → is_applied sid key s.identities ≡ true
      → Keeps s (after_reset sv now next s o).1
  reset-Keeps s q none keeps h done = (refl, refl)
  reset-Keeps s q (some (all, p)) keeps h done =
      keeps (record s { identities = all })
        (mark_pending-applied_same (sv.writes reset) now sid key (some q.pedido_id) q.plan_id
            q.router_id q.expires_at q.attempts s.identities all p h
          ∙ done)

  cool_down-Keeps :
      (s : State) (q : Pending)
      → ((t : State) → is_applied sid key t.identities ≡ true → Keeps t (next t).1)
      → is_applied sid key s.identities ≡ true
      → Keeps s (after_cool_down sv now sid q next s).1
  unfolding after_cool_down
  cool_down-Keeps s q keeps done =
      either-Keeps (not (is_failed q.status)) s (next s) _ (keeps s done) (
        either-Keeps (ltb 0 (wait_ms sv now q.next_eligible_at)) s
          (some (failed_until (fail_code_of q.fail_code) (wait_ms sv now q.next_eligible_at)), s) _
          (refl, refl) (reset-Keeps s q _ keeps refl done))

module _ (sv : Services) (now : ℕ) (p : Payload) where
  act_again-Keeps :
      (c : Call) (s : State)
      → is_applied p.sid (action_key c.mik_id c.pedido_id) s.identities ≡ true
      → Keeps s (act_again sv now p c s).1
  unfolding act_again
  act_again-Keeps c s done = rw (done) (refl, refl)

  locate_again-Keeps :
      (q : Pending) (r : String) (s : State)
      → is_applied p.sid (action_key r q.pedido_id) s.identities ≡ true
      → Keeps s (locate_again sv now p q (some r) s).1
  unfolding locate_again
  locate_again-Keeps q r s done =
      either-Keeps (not (truthy (some r))) s _ _ (refl, refl)
        (either-Keeps (not (truthy (or_else p.ip (last_seen (λ l. l.ip) p.sid s)))) s _ _
          (refl, refl)
          (either-Keeps (not (truthy (or_else p.mac (last_seen (λ l. l.mac) p.sid s)))) s _ _
            (refl, refl) (act_again-Keeps _ s done)))

  picks :
      (r : String)
      → p.router_hint ≡ some r
      → truthy (some r) ≡ true
      → (pending recent : Option String)
      → pick_router p.router_hint p.identity pending recent ≡ some r
  unfolding pick_router
  picks r hinted named pending recent = rw (hinted, named) refl

  retry-applied_once :
      (r : String) (q : Pending) (s : State)
      → p.router_hint ≡ some r
      → truthy (some r) ≡ true
      → get_pending p.sid s.identities ≡ some q
      → is_applied p.sid (action_key r q.pedido_id) s.identities ≡ true
      → Keeps s (retry_authorize_pending sv now p s).1
  unfolding retry_authorize_pending retry_open
  retry-applied_once r q s hinted named pend done =
      let again : State → Result = λ t.
        locate_again sv now p q
          (pick_router p.router_hint p.identity (or_else q.router_id p.router_id)
            (last_seen (λ l. l.router_id) p.sid t))
          t in
      let picked = λ (t : State).
        picks r hinted named (or_else q.router_id p.router_id)
          (last_seen (λ l. l.router_id) p.sid t) in
      either-Keeps (str_eq p.sid "") s _ _ (refl, refl)
        (subst (λ o. Keeps s (retry_open sv now p o s).1) (sym pend)
          (cool_down-Keeps sv now p.sid (action_key r q.pedido_id) again s q
            (λ t d.
              subst (λ o. Keeps t (locate_again sv now p q o t).1) (sym (picked t))
                (locate_again-Keeps q r t d))
            done))

-- A client's pending payment has been authorized at a router, by an action that is still recorded as
-- applied. Then neither a `refreshAndAuthorize` of the client nor a `retryAuthorizePending` of its
-- payload whose router hint names that router calls a router or schedules a job, whatever the rest of
-- the store, the routers' health and the failures of writes; for the former, when no prune of the
-- store is due.
pub applied_once :
    (sv : Services) (now : ℕ) (a : Arrival) (p : Payload) (r : String) (q : Pending) (s : State)
    → a.router_hint ≡ some r
    → p.router_hint ≡ some r
    → p.sid ≡ a.sid
    → truthy (some r) ≡ true
    → get_pending a.sid s.identities ≡ some q
    → is_applied a.sid (action_key r q.pedido_id) s.identities ≡ true
    → now - s.last_prune_at < prune_cooldown_ms
    → ((refresh_and_authorize sv now a s).1.calls ≡ s.calls)
      × ((refresh_and_authorize sv now a s).1.jobs ≡ s.jobs)
      × ((retry_authorize_pending sv now p s).1.calls ≡ s.calls)
      × ((retry_authorize_pending sv now p s).1.jobs ≡ s.jobs)
applied_once sv now a p r q s hinted hinted' same named pend done soon =
    let (calls, jobs) = refresh-applied_once sv now a r q s hinted named pend done soon in
    let pend' : get_pending p.sid s.identities ≡ some q = rw (same) pend in
    let done' : is_applied p.sid (action_key r q.pedido_id) s.identities ≡ true = rw (same) done in
    let (calls', jobs') = retry-applied_once sv now p r q s hinted' named pend' done' in
    (calls, jobs, calls', jobs')

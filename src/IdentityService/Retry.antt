-- ===== src/IdentityService/Retry.antt =====
-- src/services/identityService.js: `retryAuthorizePending`.
use relay_cerebro_infra.Base.{
  ℕ, ◌+◌, ◌*◌, String, Bool, not, Option, none, some, List, leb, str_eq, if◌then◌else◌, truthy,
}
use relay_cerebro_infra.Errors.{Err, classify_error}
use relay_cerebro_infra.IdentityStore.{Pending, Identity, get_pending, mark_pending_failed}
use relay_cerebro_infra.IdentityStore.Actions.{is_applied}
use relay_cerebro_infra.RouterHealth.{can_attempt}
use relay_cerebro_infra.IdentityService.{
  Payload, Call, Services, State, Result, sid_required, no_pending_payment, router_not_resolved,
  missing_ip_or_mac, already_applied, authorization_rescheduled, router_circuit_open,
  failed_after_retries, failed, or_else, pick_router, action_key, schedule_authorize_pending,
  after_cool_down, last_seen, attempt, note_failure, by_class, max_attempts,
}
use relay_cerebro_infra.IdentityService.Refresh.{text_of}

abbrev pub cooldown_ms : ℕ
cooldown_ms = 10 * 60 * 1000

abbrev pub given_up : State → Option (List Identity × Bool) → Result
given_up s none = (none, s)
given_up s (some (all, b)) =
    (some (failed_after_retries cooldown_ms), record s { identities = all })

module _ (sv : Services) (now : ℕ) (p : Payload) where
  unfoldable pub give_up : Call → State → Result
  unfolding mark_pending_failed
  give_up c s = given_up s (
      mark_pending_failed (sv.writes failed) now p.sid c.pedido_id
        (some "authorization_failed_after_retries") (p.attempt + 1) (some (now + cooldown_ms))
        s.identities)

  unfoldable pub retry_later : Call → State → Result
  unfolding give_up schedule_authorize_pending
  retry_later c s = if leb max_attempts (p.attempt + 1) then give_up c s else (
    some (authorization_rescheduled (p.attempt + 1)),
    schedule_authorize_pending sv now (record p { attempt = p.attempt + 1 }) s,
  )

  unfoldable pub caught_at_retry : Call → Err → State → Result
  unfolding note_failure retry_later classify_error
  caught_at_retry c e s =
      let noted = note_failure sv now c.mik_id e s in
      let v = classify_error (some e) in by_class v.class_of v (retry_later c noted) noted

  -- From the check of the applied actions on.
  unfoldable pub act_again : Call → State → Result
  unfolding is_applied action_key attempt caught_at_retry can_attempt schedule_authorize_pending
  act_again c s =
      let key = action_key c.mik_id c.pedido_id in
      if is_applied p.sid key s.identities
      then (some (already_applied key), s)
      else if not (can_attempt now c.mik_id s.health)
      then (some router_circuit_open, schedule_authorize_pending sv now p s)
      else attempt sv now p.sid c (caught_at_retry c) s

  unfoldable pub locate_again : Pending → Option String → State → Result
  unfolding act_again last_seen
  locate_again q router s =
      let ip = or_else p.ip (last_seen (λ l. l.ip) p.sid s) in
      let mac = or_else p.mac (last_seen (λ l. l.mac) p.sid s) in
      let call : Call = record {
        pedido_id = q.pedido_id;
        mik_id = text_of router;
        ip = text_of ip;
        mac = text_of mac;
      } in
      if not (truthy router)
      then (some router_not_resolved, s)
      else if not (truthy ip)
      then (some missing_ip_or_mac, s)
      else if not (truthy mac)
      then (some missing_ip_or_mac, s)
      else act_again call s

  unfoldable pub retry_open : Option Pending → State → Result
  unfolding after_cool_down locate_again pick_router last_seen
  retry_open none s = (some no_pending_payment, s)
  retry_open (some q) s =
      after_cool_down sv now p.sid q
        (λ s.
          locate_again q
            (pick_router p.router_hint p.identity (or_else q.router_id p.router_id)
              (last_seen (λ l. l.router_id) p.sid s))
            s)
        s

  unfoldable pub retry_authorize_pending : State → Result
  unfolding get_pending retry_open
  retry_authorize_pending s =
      if str_eq p.sid ""
      then (some sid_required, s)
      else retry_open (get_pending p.sid s.identities) s

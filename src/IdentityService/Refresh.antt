-- ===== src/IdentityService/Refresh.antt =====
-- src/services/identityService.js: `refreshAndAuthorize`.
use relay_cerebro_infra.Base.{
  ℕ, ◌-◌, String, Bool, true, false, not, Option, none, some, List, if◌then◌else◌, truthy,
}
use relay_cerebro_infra.Errors.{Err, classify_error}
use relay_cerebro_infra.IdentityStore.{Pending, Identity, Context, get_pending, upsert_last_seen}
use relay_cerebro_infra.IdentityStore.Actions.{is_applied}
use relay_cerebro_infra.RouterHealth.{get_health, can_attempt}
use relay_cerebro_infra.IdentityService.{
  Payload, Call, Services, State, Result, no_pending_payment, router_not_resolved,
  missing_ip_or_mac, already_applied, authorization_scheduled, seen, or_else, pick_router,
  action_key, maybe_prune, schedule_authorize_pending, after_cool_down, last_seen, attempt,
  note_failure, by_class, back_off,
}

-- The arguments of `refreshAndAuthorize`.
pub record Arrival : Type 0 where
  pub sid : String
  pub ip : Option String
  pub mac : Option String
  pub router_hint : Option String
  pub identity : Option String

abbrev pub text_of : Option String → String
text_of none = ""
text_of (some s) = s

module _ (sv : Services) (now : ℕ) (a : Arrival) where
  abbrev pub first_payload : Call → Payload
  first_payload c = record {
    sid = a.sid;
    pedido_id = c.pedido_id;
    router_id = some c.mik_id;
    router_hint = a.router_hint;
    identity = a.identity;
    ip = some c.ip;
    mac = some c.mac;
    attempt = 0;
  }

  unfoldable pub caught_at_refresh : Call → Err → State → Result
  unfolding note_failure schedule_authorize_pending classify_error
  caught_at_refresh c e s =
      let noted = note_failure sv now c.mik_id e s in
      let v = classify_error (some e) in
      by_class v.class_of v
        (
          some (authorization_scheduled (back_off 0)),
          schedule_authorize_pending sv now (first_payload c) noted,
        )
        noted

  -- From the check of the applied actions on.
  unfoldable pub act : Call → State → Result
  unfolding is_applied action_key attempt caught_at_refresh can_attempt get_health
      schedule_authorize_pending
  act c s =
      let key = action_key c.mik_id c.pedido_id in
      if is_applied a.sid key s.identities
      then (some (already_applied key), s)
      else if not (can_attempt now c.mik_id s.health)
      then (
        some (authorization_scheduled ((get_health c.mik_id s.health).open_until - now)),
        schedule_authorize_pending sv now (first_payload c) s,
      )
      else attempt sv now a.sid c (caught_at_refresh c) s

  unfoldable pub at_address :
      Pending → Option String → Option String → Option String → State → Result
  unfolding act
  at_address p router ip mac s =
      let call : Call = record {
        pedido_id = p.pedido_id;
        mik_id = text_of router;
        ip = text_of ip;
        mac = text_of mac;
      } in
      if not (truthy router)
      then (some router_not_resolved, s)
      else if not (sv.has_router (text_of router))
      then (none, s)
      else if not (truthy ip)
      then (some missing_ip_or_mac, s)
      else if not (truthy mac)
      then (some missing_ip_or_mac, s)
      else act call s

  unfoldable pub locate : Pending → Option String → State → Result
  unfolding at_address last_seen
  locate p router s =
      at_address p router (or_else a.ip (last_seen (λ l. l.ip) a.sid s))
        (or_else a.mac (last_seen (λ l. l.mac) a.sid s)) s

  unfoldable pub authorize_open : Option Pending → State → Result
  unfolding after_cool_down locate pick_router last_seen
  authorize_open none s = (some no_pending_payment, s)
  authorize_open (some p) s =
      after_cool_down sv now a.sid p
        (λ s.
          locate p
            (pick_router a.router_hint a.identity p.router_id
              (last_seen (λ l. l.router_id) a.sid s))
            s)
        s

  abbrev pub context : Context
  context = record {
    ip = a.ip;
    mac = a.mac;
    router_id = or_else a.router_hint a.identity;
    identity = a.identity;
    router_hint = a.router_hint;
  }

  unfoldable pub after_prune : Bool × State → Result
  unfolding get_pending authorize_open
  after_prune (false, s) = (none, s)
  after_prune (true, s) = authorize_open (get_pending a.sid s.identities) s

  unfoldable pub after_seen : State → Option (List Identity × Identity) → Result
  unfolding maybe_prune after_prune
  after_seen s none = (none, s)
  after_seen s (some (all, r)) = after_prune (maybe_prune sv now (record s { identities = all }))

  unfoldable pub refresh_and_authorize : State → Result
  unfolding upsert_last_seen after_seen
  refresh_and_authorize s =
      after_seen s (upsert_last_seen (sv.writes seen) now a.sid context s.identities)

-- ===== src/IdentityService/Payment.antt =====
-- src/services/identityService.js: a payment that the router grants.
use relay_cerebro_infra.Base.{
  ℕ, ◌-◌, ◌<◌, String, true, false, Option, none, some, List, [], ◌∷◌, ◌++◌, ◌≡◌, refl, arith, ltb,
  str_eq, truthy, ap, sym, ◌∙◌, str_eq_refl, subst,
}
use Prim.Native.String.{◌++◌ as ◌<>◌}
use Prim.Native.String.append.{nil, cons}
use Prim.Native.String.compare.{cons-nil}
use relay_cerebro_infra.IdentityStore.{
  Identity, Applied, Pending, status_pending, get_identity, put, get_pending, mark_pending_applied,
  settle_pending, upsert_last_seen, seen_now, pending_of, as_applied,
}
use relay_cerebro_infra.IdentityStore.Actions.{is_applied, mark_applied, record_applied, kept}
use relay_cerebro_infra.IdentityStore.Laws.{get_identity-sid, kept-newest}
use relay_cerebro_infra.IdentityStore.Payments.{get_identity-put_self}
use relay_cerebro_infra.RouterHealth.{can_attempt}
use relay_cerebro_infra.IdentityService.{
  seen, applied, settled, Write, Call, Services, State, Result, granted, authorized, action_key,
  attempt, maybe_prune, prune_cooldown_ms, after_cool_down, or_else, last_seen,
}
use relay_cerebro_infra.IdentityService.Refresh.{
  Arrival, act, at_address, locate, authorize_open, after_prune, after_seen, refresh_and_authorize,
  context,
}
use relay_cerebro_infra.IdentityService.Calls.{upsert-same, picks}

key_nonempty : (r pedido_id : String) → str_eq (action_key r pedido_id) "" ≡ false
unfolding action_key
key_nonempty String.[] pedido_id =
    rw (nil (":" <> pedido_id <> ":AUTHORIZE"), cons ":" "" (pedido_id <> ":AUTHORIZE"), cons-nil)
      refl
key_nonempty (String.◌∷◌ c s) pedido_id =
    rw (cons c s (":" <> pedido_id <> ":AUTHORIZE"), cons-nil) refl

mark_applied-stores :
    (now : ℕ) (sid key : String) (x : Identity) (all : List Identity)
    → str_eq sid "" ≡ false
    → str_eq key "" ≡ false
    → get_identity sid all ≡ some x
    → mark_applied true now sid key all ≡ some (put (record_applied now key x) all, true)
unfolding mark_applied
mark_applied-stores now sid key x all named keyed found = rw (named, keyed, found) refl

mark_pending_applied-stores :
    (now : ℕ) (sid pedido_id : String) (x : Identity) (q : Pending) (all : List Identity)
    → str_eq sid "" ≡ false
    → str_eq pedido_id "" ≡ false
    → get_identity sid all ≡ some x
    → x.pending ≡ some q
    → str_eq q.pedido_id pedido_id ≡ true
    → mark_pending_applied true now sid pedido_id all
      ≡ some (put (record x { pending = some (as_applied now q); updated_at = some now }) all, true)
unfolding mark_pending_applied settle_pending
mark_pending_applied-stores now sid pedido_id x q all named asked found pend ordered =
    rw (named, asked, found, pend, ordered) refl

-- What a granted payment leaves.
pub record IsPaid (sid key : String) (c : Call) (s : State) (r : Result) : Type 0 where
  pub replied : r.0 ≡ some (authorized key)
  pub called : r.1.calls ≡ s.calls ++ c ∷ []
  pub unscheduled : r.1.jobs ≡ s.jobs
  pub recorded : is_applied sid key r.1.identities ≡ true
  pub closed : get_pending sid r.1.identities ≡ none

pending-open :
    (sid : String) (x : Identity) (q : Pending) (all : List Identity)
    → get_identity sid all ≡ some x
    → x.pending ≡ some q
    → q.status ≡ status_pending
    → get_pending sid all ≡ some q
unfolding get_pending
pending-open sid x q all found pend waits = rw (found, pend, waits) refl

recorded_key :
    (sid key : String) (x : Identity) (all : List Identity) (now : ℕ) (l : List Applied)
    → str_eq sid "" ≡ false
    → str_eq key "" ≡ false
    → 0 < now
    → get_identity sid all ≡ some x
    → x.applied ≡ kept now (l ++ record { action_key = key; at_ms = now } ∷ [])
    → is_applied sid key all ≡ true
unfolding is_applied
recorded_key sid key x all now l named keyed clock found kept_last =
    rw (named, keyed, found, kept_last) (kept-newest now key l clock)

module _ (sv : Services) (now : ℕ) (a : Arrival) (stored : (w : Write) → sv.writes w ≡ true)
    (clock : 0 < now) where
  act-grants :
      (c : Call) (s : State) (x : Identity) (q : Pending)
      → get_identity a.sid s.identities ≡ some x
      → x.pending ≡ some q
      → str_eq q.pedido_id c.pedido_id ≡ true
      → str_eq a.sid "" ≡ false
      → str_eq c.pedido_id "" ≡ false
      → is_applied a.sid (action_key c.mik_id c.pedido_id) s.identities ≡ false
      → can_attempt now c.mik_id s.health ≡ true
      → sv.authorize s.calls c ≡ granted
      → IsPaid a.sid (action_key c.mik_id c.pedido_id) c s (act sv now a c s)
  unfolding act attempt get_pending
  act-grants c s x q found pend ordered named asked fresh closed grants =
      let key = action_key c.mik_id c.pedido_id in
      let keyed = key_nonempty c.mik_id c.pedido_id in
      let same = get_identity-sid a.sid x s.identities found in
      let x₁ = record_applied now key x in
      let all₁ = put x₁ s.identities in
      let found₁ : get_identity a.sid all₁ ≡ some x₁ =
        get_identity-put_self a.sid x₁ s.identities same in
      let x₂ : Identity = record x₁ { pending = some (as_applied now q); updated_at = some now } in
      let found₂ : get_identity a.sid (put x₂ all₁) ≡ some x₂ =
        get_identity-put_self a.sid x₂ all₁ same in
      let t = record s { calls = s.calls ++ c ∷ []; identities = put x₂ all₁ } in
      let first : mark_applied (sv.writes applied) now a.sid key s.identities ≡ some (all₁, true) =
        rw (stored applied) (mark_applied-stores now a.sid key x s.identities named keyed found) in
      let second : mark_pending_applied (sv.writes settled) now a.sid c.pedido_id all₁
          ≡ some (put x₂ all₁, true) =
        rw (stored settled) (
          mark_pending_applied-stores now a.sid c.pedido_id x₁ q all₁ named asked found₁ pend
            ordered) in
      let result : act sv now a c s ≡ (some (authorized key), t) =
        rw (fresh, closed, grants, first, second) refl in
      let recorded : is_applied a.sid key (put x₂ all₁) ≡ true =
        recorded_key a.sid key x₂ _ now x.applied named keyed clock found₂ refl in
      let closed : get_pending a.sid (put x₂ all₁) ≡ none = ap pending_of found₂ in
      subst (λ r. IsPaid a.sid key c s r) (sym result)
        (record {
          replied = refl;
          called = refl;
          unscheduled = refl;
          recorded = recorded;
          closed = closed;
        })

  at_address-acts :
      (p : Pending) (r ip mac : String) (s : State)
      → truthy (some r) ≡ true
      → sv.has_router r ≡ true
      → truthy (some ip) ≡ true
      → truthy (some mac) ≡ true
      → at_address sv now a p (some r) (some ip) (some mac) s
        ≡ act sv now a (record { pedido_id = p.pedido_id; mik_id = r; ip = ip; mac = mac }) s
  unfolding at_address
  at_address-acts p r ip mac s routed known has_ip has_mac =
      rw (routed, known, has_ip, has_mac) refl

  locate-grants :
      (q p : Pending) (r ip mac : String) (x : Identity) (s : State)
      → q.pedido_id ≡ p.pedido_id
      → get_identity a.sid s.identities ≡ some x
      → x.pending ≡ some q
      → str_eq a.sid "" ≡ false
      → str_eq p.pedido_id "" ≡ false
      → truthy (some r) ≡ true
      → sv.has_router r ≡ true
      → a.ip ≡ some ip
      → truthy (some ip) ≡ true
      → a.mac ≡ some mac
      → truthy (some mac) ≡ true
      → is_applied a.sid (action_key r p.pedido_id) s.identities ≡ false
      → can_attempt now r s.health ≡ true
      → sv.authorize s.calls (record { pedido_id = p.pedido_id; mik_id = r; ip = ip; mac = mac })
        ≡ granted
      → IsPaid a.sid
          (action_key r p.pedido_id)
          (record { pedido_id = p.pedido_id; mik_id = r; ip = ip; mac = mac })
          s
          (locate sv now a p (some r) s)
  unfolding locate
  locate-grants q p r ip mac x s same found pend named asked routed known at_ip has_ip at_mac
        has_mac fresh closed grants =
      let c : Call = record { pedido_id = p.pedido_id; mik_id = r; ip = ip; mac = mac } in
      let given : (o : Option String) (rest : Option String) (t : String)
          → o ≡ some t
          → truthy (some t) ≡ true
          → or_else o rest ≡ some t =
        λ o rest t h k. rw (h, k) refl in
      let acts : locate sv now a p (some r) s ≡ act sv now a c s =
        ap
          (λ i. at_address sv now a p (some r) i (or_else a.mac (last_seen (λ l. l.mac) a.sid s)) s)
          (given a.ip (last_seen (λ l. l.ip) a.sid s) ip at_ip has_ip)
        ∙ ap (λ m. at_address sv now a p (some r) (some ip) m s)
            (given a.mac (last_seen (λ l. l.mac) a.sid s) mac at_mac has_mac)
        ∙ at_address-acts p r ip mac s routed known has_ip has_mac in
      subst (IsPaid a.sid (action_key r p.pedido_id) c s) (sym acts) (
        act-grants c s x q found pend (rw (same) (str_eq_refl p.pedido_id)) named asked fresh closed
          grants)

  open-locates :
      (q : Pending) (r : String) (s : State)
      → q.status ≡ status_pending
      → a.router_hint ≡ some r
      → truthy (some r) ≡ true
      → authorize_open sv now a (some q) s ≡ locate sv now a q (some r) s
  unfolding authorize_open after_cool_down
  open-locates q r s waits hinted routed = rw (waits) (
      ap (λ o. locate sv now a q o s)
        (picks sv now a r hinted routed a.identity q.router_id
          (last_seen (λ l. l.router_id) a.sid s)))

  seen-opens :
      (s : State) (x : Identity) (q : Pending) (all : List Identity)
      → get_pending a.sid all ≡ some q
      → now - s.last_prune_at < prune_cooldown_ms
      → after_seen sv now a s (some (all, x))
        ≡ authorize_open sv now a (some q) (record s { identities = all })
  unfolding after_seen maybe_prune after_prune
  seen-opens s x q all pend soon =
      let early : ltb (now - s.last_prune_at) prune_cooldown_ms ≡ true = ground arith in
      rw (early, pend) refl

  upsert-stores :
      (s : State) (x : Identity)
      → get_identity a.sid s.identities ≡ some x
      → str_eq a.sid "" ≡ false
      → let fresh = record x {
        last_seen = some (seen_now now (context sv now a) x.last_seen);
        updated_at = some now;
      } in
        upsert_last_seen true now a.sid (context sv now a) s.identities
        ≡ some (put fresh s.identities, fresh)
  unfolding upsert_last_seen
  upsert-stores s x found named = rw (named, found) refl

-- A client with a pending payment, at a known router whose circuit is closed and with an address,
-- whose action is not recorded as applied: if the router grants the call and the store can be written
-- (and no prune is due), `refreshAndAuthorize` answers that it is authorized, has called the router
-- once, has recorded the action as applied, and leaves nothing pending and no new job.
pub refresh-grants :
    (sv : Services) (now : ℕ) (a : Arrival) (r ip mac : String) (x : Identity) (q : Pending)
    (s : State)
    → ((w : Write) → sv.writes w ≡ true)
    → 0 < now
    → str_eq a.sid "" ≡ false
    → get_identity a.sid s.identities ≡ some x
    → x.pending ≡ some q
    → q.status ≡ status_pending
    → str_eq q.pedido_id "" ≡ false
    → now - s.last_prune_at < prune_cooldown_ms
    → (a.router_hint ≡ some r) × (truthy (some r) ≡ true) × (sv.has_router r ≡ true)
    → (a.ip ≡ some ip) × (truthy (some ip) ≡ true)
    → (a.mac ≡ some mac) × (truthy (some mac) ≡ true)
    → is_applied a.sid (action_key r q.pedido_id) s.identities ≡ false
    → can_attempt now r s.health ≡ true
    → sv.authorize s.calls (record { pedido_id = q.pedido_id; mik_id = r; ip = ip; mac = mac })
      ≡ granted
    → IsPaid a.sid
        (action_key r q.pedido_id)
        (record { pedido_id = q.pedido_id; mik_id = r; ip = ip; mac = mac })
        s
        (refresh_and_authorize sv now a s)
unfolding refresh_and_authorize
refresh-grants sv now a r ip mac x q s stored clock named found pend waits asked soon
      (hinted, routed, known) (at_ip, has_ip) (at_mac, has_mac) fresh closed grants =
    let c : Call = record { pedido_id = q.pedido_id; mik_id = r; ip = ip; mac = mac } in
    let y : Identity = record x {
      last_seen = some (seen_now now (context sv now a) x.last_seen);
      updated_at = some now;
    } in
    let all = put y s.identities in
    let stores : upsert_last_seen (sv.writes seen) now a.sid (context sv now a) s.identities
        ≡ some (all, y) =
      rw (stored seen) (upsert-stores sv now a stored clock s x found named) in
    let same =
      upsert-same (sv.writes seen) now a.sid (action_key r q.pedido_id) (context sv now a)
        s.identities all y stores in
    let there =
      get_identity-put_self a.sid y s.identities (get_identity-sid a.sid x s.identities found) in
    let opened : get_pending a.sid all ≡ some q = pending-open a.sid y q all there pend waits in
    let goes : refresh_and_authorize sv now a s
        ≡ locate sv now a q (some r) (record s { identities = all }) =
      ap (after_seen sv now a s) stores
      ∙ seen-opens sv now a stored clock s y q all opened soon
      ∙ open-locates sv now a stored clock q r (record s { identities = all }) waits hinted
          routed in
    subst (IsPaid a.sid (action_key r q.pedido_id) c s) (sym goes) (
      let paid =
        locate-grants sv now a stored clock q q r ip mac y (record s { identities = all }) refl
          there pend named asked routed known at_ip has_ip at_mac has_mac (same.0 ∙ fresh) closed
          grants in
      record {
        replied = paid.replied;
        called = paid.called;
        unscheduled = paid.unscheduled;
        recorded = paid.recorded;
        closed = paid.closed;
      })

-- ===== src/IdentityService/Calls.antt =====
-- src/services/identityService.js: a payment whose action has been applied.
use relay_cerebro_infra.Base.{
  ℕ, ◌-◌, ◌<◌, String, Bool, true, false, not, ◌||◌, Option, none, some, List, ◌≡◌, refl, arith,
  ltb, if◌then◌else◌, str_eq, truthy, ap, sym, ◌∙◌, subst,
}
use relay_cerebro_infra.IdentityStore.{
  Context, Identity, Pending, get_identity, put, get_pending, mark_pending, upsert_last_seen,
  write_all, found_or_new, hold, new_pending, seen_now, pending_of, open_pending, text_or_empty,
}
use relay_cerebro_infra.IdentityStore.Actions.{is_applied, applied_of}
use relay_cerebro_infra.IdentityStore.Payments.{found_or_new-sid, get_identity-put_self}
use relay_cerebro_infra.IdentityService.{
  Call, Services, State, Result, action_key, maybe_prune, prune_cooldown_ms, after_reset,
  after_cool_down, wait_ms, is_failed, failed_until, fail_code_of, seen, reset, last_seen,
  pick_router, or_else,
}
use relay_cerebro_infra.IdentityService.Refresh.{
  Arrival, act, at_address, locate, authorize_open, after_prune, after_seen, refresh_and_authorize,
  context,
}

write_all-all :
    {A : Type 0} (b can_write : Bool) (all all₂ : List Identity) (a a₂ : A)
    → (if b then none else write_all can_write all a) ≡ some (all₂, a₂)
    → all ≡ all₂
write_all-all true can_write all all₂ a a₂ h = absurd (ground arith)
write_all-all false true all all₂ a a₂ h = cc h
write_all-all false false all all₂ a a₂ h = absurd (ground arith)

is_applied-found :
    (sid key : String) (all all₂ : List Identity)
    → applied_of (get_identity sid all) ≡ applied_of (get_identity sid all₂)
    → is_applied sid key all ≡ is_applied sid key all₂
unfolding is_applied
is_applied-found sid key all all₂ h = rw (h) refl

applied_of-new :
    (now : ℕ) (sid : String) (o : Option Identity) → (found_or_new now sid o).applied ≡ applied_of o
applied_of-new now sid none = refl
applied_of-new now sid (some r) = refl

pending_of-new :
    (now : ℕ) (sid : String) (o : Option Identity)
    → open_pending (found_or_new now sid o).pending ≡ pending_of o
pending_of-new now sid none = refl
pending_of-new now sid (some r) = refl

put-applied_same :
    (now : ℕ) (sid key : String) (r : Identity) (all : List Identity)
    → r.sid ≡ sid
    → r.applied ≡ (found_or_new now sid (get_identity sid all)).applied
    → is_applied sid key (put r all) ≡ is_applied sid key all
put-applied_same now sid key r all same kept = is_applied-found sid key (put r all) all (
    ap applied_of (get_identity-put_self sid r all same)
    ∙ kept
    ∙ applied_of-new now sid (get_identity sid all))

put-pending_same :
    (now : ℕ) (sid : String) (r : Identity) (all : List Identity)
    → r.sid ≡ sid
    → r.pending ≡ (found_or_new now sid (get_identity sid all)).pending
    → get_pending sid (put r all) ≡ get_pending sid all
unfolding get_pending
put-pending_same now sid r all same kept =
    ap pending_of (get_identity-put_self sid r all same)
    ∙ ap open_pending kept
    ∙ pending_of-new now sid (get_identity sid all)

-- `markPending` leaves the applied actions as they were.
pub mark_pending-applied_same :
    (can_write : Bool) (now : ℕ) (sid key : String) (pedido plan router expires : Option String)
    (n : ℕ) (all all₂ : List Identity) (p : Pending)
    → mark_pending can_write now sid pedido plan router expires n all ≡ some (all₂, p)
    → is_applied sid key all₂ ≡ is_applied sid key all
unfolding mark_pending
mark_pending-applied_same can_write now sid key pedido plan router expires n all all₂ p h =
    let r = found_or_new now sid (get_identity sid all) in
    let held = hold now (new_pending now (text_or_empty pedido) plan router expires n) r in
    let written : put held all ≡ all₂ =
      write_all-all (str_eq sid "" || not (truthy pedido)) can_write _ _ _ _ h in
    subst (λ l. is_applied sid key l ≡ is_applied sid key all) written
      (put-applied_same now sid key held all (found_or_new-sid now sid all) refl)

pub upsert-same :
    (can_write : Bool) (now : ℕ) (sid key : String) (ctx : Context) (all all₂ : List Identity)
    (r : Identity)
    → upsert_last_seen can_write now sid ctx all ≡ some (all₂, r)
    → (is_applied sid key all₂ ≡ is_applied sid key all)
      × (get_pending sid all₂ ≡ get_pending sid all)
unfolding upsert_last_seen
upsert-same can_write now sid key ctx all all₂ r h =
    let old = found_or_new now sid (get_identity sid all) in
    let fresh : Identity = record old {
      last_seen = some (seen_now now ctx old.last_seen);
      updated_at = some now;
    } in
    let written : put fresh all ≡ all₂ = write_all-all (str_eq sid "") can_write _ _ _ _ h in
    let same = found_or_new-sid now sid all in
    subst
      (λ l.
        (is_applied sid key l ≡ is_applied sid key all) × (get_pending sid l ≡ get_pending sid all))
      written
      (
        put-applied_same now sid key fresh all same refl,
        put-pending_same now sid fresh all same refl,
      )

-- A state with the calls and the jobs of another.
abbrev pub Keeps : State → State → Type 0
Keeps s t = (t.calls ≡ s.calls) × (t.jobs ≡ s.jobs)

pub either-Keeps :
    (b : Bool) (s : State) (x y : Result)
    → Keeps s x.1
    → Keeps s y.1
    → Keeps s (if b then x else y).1
either-Keeps true s x y l r = l
either-Keeps false s x y l r = r

module _ (sv : Services) (now : ℕ) (a : Arrival) where
  act-Keeps :
      (c : Call) (s : State)
      → is_applied a.sid (action_key c.mik_id c.pedido_id) s.identities ≡ true
      → Keeps s (act sv now a c s).1
  unfolding act
  act-Keeps c s done = rw (done) (refl, refl)

  locate-Keeps :
      (q : Pending) (router : String) (s : State)
      → is_applied a.sid (action_key router q.pedido_id) s.identities ≡ true
      → Keeps s (locate sv now a q (some router) s).1
  unfolding locate at_address
  locate-Keeps q router s done =
      either-Keeps (not (truthy (some router))) s _ _ (refl, refl)
        (either-Keeps (not (sv.has_router router)) s _ _ (refl, refl)
          (either-Keeps (not (truthy (or_else a.ip (last_seen (λ l. l.ip) a.sid s)))) s _ _
            (refl, refl)
            (either-Keeps (not (truthy (or_else a.mac (last_seen (λ l. l.mac) a.sid s)))) s _ _
              (refl, refl) (act-Keeps _ s done))))

  module _ (r : String) (hinted : a.router_hint ≡ some r) (named : truthy (some r) ≡ true) where
    pub picks :
        (identity pending recent_router : Option String)
        → pick_router a.router_hint identity pending recent_router ≡ some r
    unfolding pick_router
    picks identity pending recent_router = rw (hinted, named) refl

    chosen-Keeps :
        (q : Pending) (s : State) (identity pending recent_router : Option String)
        → is_applied a.sid (action_key r q.pedido_id) s.identities ≡ true
        → Keeps s (locate sv now a q (pick_router a.router_hint identity pending recent_router) s).1
    chosen-Keeps q s identity pending recent_router done =
        subst (λ o. Keeps s (locate sv now a q o s).1) (sym (picks identity pending recent_router))
          (locate-Keeps q r s done)

    -- What `authorize_open` goes on with.
    chosen : Pending → State → Result
    chosen q s =
        locate sv now a q
          (pick_router a.router_hint a.identity q.router_id (last_seen (λ l. l.router_id) a.sid s))
          s

    reset-Keeps :
        (q : Pending) (s : State) (o : Option (List Identity × Pending))
        → mark_pending
            (sv.writes reset)
            now
            a.sid
            (some q.pedido_id)
            q.plan_id
            q.router_id
            q.expires_at
            q.attempts
            s.identities
          ≡ o
        → is_applied a.sid (action_key r q.pedido_id) s.identities ≡ true
        → Keeps s (after_reset sv now (chosen q) s o).1
    unfolding chosen
    reset-Keeps q s none h done = (refl, refl)
    reset-Keeps q s (some (all, p)) h done =
        chosen-Keeps q (record s { identities = all }) a.identity q.router_id _
          (mark_pending-applied_same (sv.writes reset) now a.sid (action_key r q.pedido_id)
              (some q.pedido_id) q.plan_id q.router_id q.expires_at q.attempts s.identities all p h
            ∙ done)

    open-Keeps :
        (q : Pending) (s : State)
        → is_applied a.sid (action_key r q.pedido_id) s.identities ≡ true
        → Keeps s (authorize_open sv now a (some q) s).1
    unfolding authorize_open after_cool_down chosen
    open-Keeps q s done =
        either-Keeps (not (is_failed q.status)) s (chosen q s) _
          (chosen-Keeps q s a.identity q.router_id (last_seen (λ l. l.router_id) a.sid s) done)
          (either-Keeps (ltb 0 (wait_ms sv now q.next_eligible_at)) s
            (some (failed_until (fail_code_of q.fail_code) (wait_ms sv now q.next_eligible_at)), s)
            _ (refl, refl) (reset-Keeps q s _ refl done))

    seen-Keeps :
        (q : Pending) (s : State) (o : Option (List Identity × Identity))
        → upsert_last_seen (sv.writes seen) now a.sid (context sv now a) s.identities ≡ o
        → get_pending a.sid s.identities ≡ some q
        → is_applied a.sid (action_key r q.pedido_id) s.identities ≡ true
        → now - s.last_prune_at < prune_cooldown_ms
        → Keeps s (after_seen sv now a s o).1
    unfolding after_seen maybe_prune after_prune
    seen-Keeps q s none h pend done soon = (refl, refl)
    seen-Keeps q s (some (all, x)) h pend done soon =
        let same =
          upsert-same (sv.writes seen) now a.sid (action_key r q.pedido_id) (context sv now a)
            s.identities all x h in
        let early : ltb (now - s.last_prune_at) prune_cooldown_ms ≡ true = ground arith in
        let found : get_pending a.sid all ≡ some q = same.1 ∙ pend in
        rw (early, found) (open-Keeps q (record s { identities = all }) (same.0 ∙ done))

-- `refreshAndAuthorize` with a router hint: see `applied_once`.
pub refresh-applied_once :
    (sv : Services) (now : ℕ) (a : Arrival) (r : String) (q : Pending) (s : State)
    → a.router_hint ≡ some r
    → truthy (some r) ≡ true
    → get_pending a.sid s.identities ≡ some q
    → is_applied a.sid (action_key r q.pedido_id) s.identities ≡ true
    → now - s.last_prune_at < prune_cooldown_ms
    → ((refresh_and_authorize sv now a s).1.calls ≡ s.calls)
      × ((refresh_and_authorize sv now a s).1.jobs ≡ s.jobs)
unfolding refresh_and_authorize
refresh-applied_once sv now a r q s hinted named pend done soon =
    seen-Keeps sv now a r hinted named q s _ refl pend done soon

-- ===== src/SessionStore/Authorize.antt =====
-- src/services/sessionStore.js: what `authorizeSession` does, on each of its branches.
use relay_cerebro_infra.Base.{
  ℕ, ◌+◌, String, Bool, true, false, Option, none, some, ◌≡◌, refl, ◌∙◌, ap, [], ◌∷◌, ◌++◌, ltb,
  truthy, str_eq_refl, if◌then◌else◌, arith,
}
use relay_cerebro_infra.Redis.{Redis}
use relay_cerebro_infra.SessionStore.{
  Session, authorized, MkResult, answered, threw, Key, session, lock_authorize, Value, json, token,
  key_eq, lock_ttl_ms, compute_session_ttl_ms, allowed_transition, parse_session,
}
use relay_cerebro_infra.SessionStore.Exec.{ok, ◌>>◌, and_then, add_binding, World}
use relay_cerebro_infra.SessionStore.Ops.{get_session, persist_session, persist_indices}
use relay_cerebro_infra.SessionStore.Lifecycle.{
  Manager, Stamp, given, Outcome, authorize_session, authorize_locked, authorize_on_router,
  authorized_session, with_lock, require_session, check_add, is_authorized,
}
use relay_cerebro_infra.SessionStore.Ttl.{compute_session_ttl_ms-pos}
use relay_cerebro_infra.SessionStore.Frame.{
  Frames, Frames-bind, Frames-then, Frames-pure, Frames-raise, Frames-if, Frames-now,
  Frames-router_call, Frames-get_session, Frames-persist_session, Frames-release_lock,
}
use relay_cerebro_infra.SessionStore.Indices.{
  index_not, Frames-persist_indices, Returns-persist_indices,
}
use relay_cerebro_infra.SessionStore.Locks.{quiet, is_lock, session_not}
use relay_cerebro_infra.SessionStore.WithLock.{
  locked, and_then_ok, with_lock_free, with_lock-released, release_lock-calls,
}

module _ (R : Redis Key Value key_eq) (h : Manager) (sid : String)
    (plan_id pedido_id : Option String) (expires_at : Stamp) where
  Frames-require : (k : Key) (o : Option Session) → Frames R k (require_session R sid o)
  Frames-require k none = Frames-raise R k _ _
  Frames-require k (some s) = Frames-pure R k s

  Frames-check_add : (k : Key) (mk : MkResult) → Frames R k (check_add R mk)
  Frames-check_add k (answered true n) = Frames-pure R k tt
  Frames-check_add k (answered false n) = Frames-raise R k _ _
  Frames-check_add k threw = Frames-raise R k _ _

  Frames-authorize_on_router :
      (k : Key) (s : Session)
      → is_lock k ≡ true
      → Frames R k (authorize_on_router R h plan_id pedido_id expires_at s)
  unfolding authorize_on_router
  Frames-authorize_on_router k s l =
      Frames-then R k _ _ (Frames-if R k _ _ _ (Frames-pure R k tt) (Frames-raise R k _ _)) (
        Frames-bind R k _ _ (Frames-router_call R k _ _) (λ mk.
          Frames-then R k _ _ (Frames-check_add k mk) (
            Frames-bind R k _ _ (Frames-now R k) (λ time.
              Frames-bind R k _ _ (Frames-persist_session R k _ _ (session_not k _ l)) (λ ttl.
                Frames-then R k _ _ (Frames-persist_indices R k _ _ (index_not k l))
                  (Frames-pure R k _))))))

  pub Frames-authorize_locked :
      (k : Key)
      → is_lock k ≡ true
      → Frames R k (authorize_locked R h sid plan_id pedido_id expires_at)
  unfolding authorize_locked
  Frames-authorize_locked k l = Frames-bind R k _ _ (Frames-get_session R k sid) (λ found.
      Frames-bind R k _ _ (Frames-require k found)
        (λ s. Frames-if R k _ _ _ (Frames-pure R k _) (Frames-authorize_on_router k s l)))

  -- What `authorizeSession` stores for `s` at a time, and for how long.
  abbrev pub granted : Session → Bool → ℕ → Session
  granted s n time = authorized_session R s plan_id pedido_id expires_at (answered true n) time

  abbrev pub granted_ttl : Session → Bool → ℕ → ℕ
  granted_ttl s n time = compute_session_ttl_ms time (granted s n time)

  -- The world in which the indices are written: the router was called and the session is stored.
  abbrev stored : Session → Bool → World R → World R
  stored s n v = record (quiet R v) {
    calls = v.calls ++ add_binding s.session_id ∷ [];
    db =
        R.set v.clock (session s.session_id) (json (granted s n v.clock)) (granted_ttl s n v.clock)
          v.db;
  }

  pub not_authorized :
      (s : Session)
      → allowed_transition s.status authorized ≡ true
      → is_authorized R s.status ≡ false
  unfolding allowed_transition
  not_authorized s a = ground arith

  authorize_locked_grants :
      (v : World R) (s : Session) (n : Bool)
      → R.get v.clock (session sid) v.db ≡ some (json s)
      → allowed_transition s.status authorized ≡ true
      → h.adds s ≡ answered true n
      → authorize_locked R h sid plan_id pedido_id expires_at (quiet R v)
        ≡ and_then
            (persist_indices R (granted s n v.clock) (granted_ttl s n v.clock) (stored s n v))
            (λ _ x. (ok (record { session = granted s n v.clock; idempotent = false }), x))
  unfolding authorize_locked authorize_on_router get_session parse_session persist_session ◌>>◌
      authorized_session
  authorize_locked_grants v s n found allowed adds =
      rw
        (
          found,
          not_authorized s allowed,
          allowed,
          adds,
          compute_session_ttl_ms-pos v.clock (granted s n v.clock),
        )
        refl

  -- The body of `authorizeSession` under its lock, on a session that may be authorized.
  pub authorize_locked-grants :
      (v : World R) (s : Session) (n : Bool)
      → R.get v.clock (session sid) v.db ≡ some (json s)
      → allowed_transition s.status authorized ≡ true
      → h.adds s ≡ answered true n
      → let r = authorize_locked R h sid plan_id pedido_id expires_at (quiet R v) in
        (r.0 ≡ ok (record { session = granted s n v.clock; idempotent = false }))
        × (r.1.calls ≡ v.calls ++ add_binding s.session_id ∷ [])
        × (r.1.faults ≡ [])
        × ((u : ℕ)
            → R.get u (session s.session_id) r.1.db ≡ (
                if ltb u (v.clock + granted_ttl s n v.clock)
                then some (json (granted s n v.clock))
                else none))
  authorize_locked-grants v s n found allowed adds =
      let g = granted s n v.clock in
      let ttl = granted_ttl s n v.clock in
      let x = stored s n v in
      let done = Returns-persist_indices R g ttl in
      rw (authorize_locked_grants v s n found allowed adds) (
        rw
          (and_then_ok {B = Outcome} (persist_indices R g ttl x) tt
            (λ _ y. (ok (record { session = g; idempotent = false }), y)) (done.fine x refl))
          (
            refl,
            done.calls x refl,
            done.calm x refl,
            λ u.
                ((Frames-persist_indices R (session s.session_id) g ttl refl).at x).same u
                ∙ rw (
                  R.get-set v.clock u (session s.session_id) (session s.session_id) (json g) ttl
                      v.db,
                  str_eq_refl s.session_id,
                ),
          ))

module _ (R : Redis Key Value key_eq) (h : Manager) (plan_id pedido_id : Option String)
    (expires_at : Stamp) where
  pub authorize_session-locked :
      (sid : String)
      → truthy (some sid) ≡ true
      → given expires_at ≡ true
      → authorize_session R sid plan_id pedido_id expires_at (some h)
        ≡ with_lock R (lock_authorize sid) (authorize_locked R h sid plan_id pedido_id expires_at)
  unfolding authorize_session
  authorize_session-locked sid a b = rw (a, b)

  -- While Redis serves every command: for a session that is stored under its id, whose state
  -- allows `authorized`, whose lock is free and which the router accepts, `authorizeSession`
  -- returns the session authorized with the given plan, order and expiry. It has called the router
  -- for that session once. The session is stored in that form from then on, for the time that
  -- `computeSessionTtlMs` gives, and the lock is free again.
  pub authorize_session-grants :
      (w : World R) (s : Session) (n : Bool)
      → truthy (some s.session_id) ≡ true
      → given expires_at ≡ true
      → R.get w.clock (lock_authorize s.session_id) w.db ≡ none
      → R.get w.clock (session s.session_id) w.db ≡ some (json s)
      → allowed_transition s.status authorized ≡ true
      → h.adds s ≡ answered true n
      → let r =
          authorize_session R s.session_id plan_id pedido_id expires_at (some h) (quiet R w) in
        let g = authorized_session R s plan_id pedido_id expires_at (answered true n) w.clock in
        (r.0 ≡ ok (record { session = g; idempotent = false }))
        × (r.1.calls ≡ w.calls ++ add_binding s.session_id ∷ [])
        × ((u : ℕ)
            → R.get u (session s.session_id) r.1.db ≡ (
                if ltb u (w.clock + compute_session_ttl_ms w.clock g) then some (json g) else none))
        × (R.get w.clock (lock_authorize s.session_id) r.1.db ≡ none)
  authorize_session-grants w s n id_given date_given free found allowed adds =
      let sid = s.session_id in
      let k = lock_authorize sid in
      let body = authorize_locked R h sid plan_id pedido_id expires_at in
      let v = locked R k w in
      let found' : R.get w.clock (session sid) v.db ≡ some (json s) =
        rw (R.get-set w.clock w.clock k (session sid) (token w.tokens) lock_ttl_ms w.db) found in
      let (returns, calls, calm, stores) =
        authorize_locked-grants R h sid plan_id pedido_id expires_at v s n found' allowed adds in
      let unlocked =
        with_lock-released R k body w free
          (Frames-authorize_locked R h sid plan_id pedido_id expires_at k refl) in
      let free_run = with_lock_free R k body w free in
      let after : World R = (body v).1 in
      rw (authorize_session-locked sid id_given date_given) (
        ap (λ r. r.0) free_run ∙ returns,
        ap (λ r. r.1.calls) free_run ∙ release_lock-calls R k w.tokens after calm ∙ calls,
        λ u.
            ap (λ r. R.get u (session sid) r.1.db) free_run
            ∙ ((Frames-release_lock R (session sid) k w.tokens refl).at after).same u
            ∙ stores u,
        unlocked,
      )

-- ===== src/SessionStore/AuthorizeFails.antt =====
-- src/services/sessionStore.js: when `authorizeSession` throws, and when it has nothing to do.
use relay_cerebro_infra.Base.{
  ℕ, String, Bool, true, false, Option, none, some, ◌≡◌, refl, ◌∙◌, ap, List, [], ◌∷◌, ◌++◌, truthy,
  ◌⊎◌, inl, inr,
}
use relay_cerebro_infra.Redis.{Redis}
use relay_cerebro_infra.SessionStore.{
  Session, authorized, revoked, MkResult, answered, threw, Key, session, lock_authorize, Value,
  json, token, key_eq, lock_ttl_ms, allowed_transition, parse_session,
}
use relay_cerebro_infra.SessionStore.Exec.{
  Error, invalid_transition, mikrotik_failed, mikrotik_exception, ok, err, ◌>>◌, RouterCall,
  add_binding, World, raise,
}
use relay_cerebro_infra.SessionStore.Ops.{get_session}
use relay_cerebro_infra.SessionStore.Lifecycle.{
  Manager, Stamp, given, authorize_session, authorize_locked, authorize_on_router, check_add,
}
use relay_cerebro_infra.SessionStore.Frame.{Frames-release_lock}
use relay_cerebro_infra.SessionStore.Locks.{quiet}
use relay_cerebro_infra.SessionStore.WithLock.{
  locked, with_lock_free, with_lock-released, release_lock-calls,
}
use relay_cerebro_infra.SessionStore.Authorize.{
  not_authorized, authorize_session-locked, Frames-authorize_locked,
}

module _ (R : Redis Key Value key_eq) (h : Manager) (plan_id pedido_id : Option String)
    (expires_at : Stamp) where
  -- A session that may not be authorized, or that the router does not accept.
  abbrev pub is_refused : MkResult → Bool
  is_refused (answered true n) = false
  is_refused (answered false n) = true
  is_refused threw = true

  abbrev pub CannotAuthorize : Session → Type 0
  CannotAuthorize s =
      (s.status ≡ revoked)
      ⊎ ((allowed_transition s.status authorized ≡ true) × (is_refused (h.adds s) ≡ true))

  check_add-refused :
      (mk : MkResult) (x : World R)
      → is_refused mk ≡ true
      → (e : Error) × (check_add R mk x ≡ (err e, x))
  unfolding raise
  check_add-refused (answered true n) x r = cc
  check_add-refused (answered false n) x r = (mikrotik_failed, refl)
  check_add-refused threw x r = (mikrotik_exception, refl)

  authorize_locked-fails :
      (v : World R) (s : Session)
      → R.get v.clock (session s.session_id) v.db ≡ some (json s)
      → CannotAuthorize s
      → (e : Error) × (calls : List RouterCall) × (authorize_locked R h s.session_id plan_id
            pedido_id expires_at
            (quiet R v)
          ≡ (err e, record (quiet R v) { calls = calls }))
  unfolding authorize_locked authorize_on_router get_session parse_session allowed_transition ◌>>◌
  authorize_locked-fails v s found (inl closed) =
      (invalid_transition s.status authorized, v.calls, rw (found, closed))
  authorize_locked-fails v s found (inr (allowed, refused)) =
      let (e, thrown) =
        check_add-refused (h.adds s)
          (record (quiet R v) { calls = v.calls ++ add_binding s.session_id ∷ [] }) refused in
      (
        e,
        v.calls ++ add_binding s.session_id ∷ [],
        rw (
          found,
          not_authorized R h s.session_id plan_id pedido_id expires_at s allowed,
          allowed,
          thrown,
        ),
      )

  -- While Redis serves every command and the lock is free: a revoked session, and one that the
  -- router refuses or fails on, makes `authorizeSession` throw. Any key but the lock's own reads
  -- as before at any time, and the lock is free again.
  pub authorize_session-keeps_store :
      (w : World R) (s : Session) (k : Key) (u : ℕ)
      → truthy (some s.session_id) ≡ true
      → given expires_at ≡ true
      → R.get w.clock (lock_authorize s.session_id) w.db ≡ none
      → R.get w.clock (session s.session_id) w.db ≡ some (json s)
      → CannotAuthorize s
      → key_eq (lock_authorize s.session_id) k ≡ false
      → let r =
          authorize_session R s.session_id plan_id pedido_id expires_at (some h) (quiet R w) in
        ((e : Error) × (r.0 ≡ err e))
        × (R.get u k r.1.db ≡ R.get u k w.db)
        × (R.get w.clock (lock_authorize s.session_id) r.1.db ≡ none)
  authorize_session-keeps_store w s j u id_given date_given free found cannot other =
      let sid = s.session_id in
      let k = lock_authorize sid in
      let body = authorize_locked R h sid plan_id pedido_id expires_at in
      let v = locked R k w in
      let found' : R.get w.clock (session sid) v.db ≡ some (json s) =
        rw (R.get-set w.clock w.clock k (session sid) (token w.tokens) lock_ttl_ms w.db) found in
      let (e, calls, thrown) = authorize_locked-fails v s found' cannot in
      let free_run = with_lock_free R k body w free in
      let unlocked =
        with_lock-released R k body w free
          (Frames-authorize_locked R h sid plan_id pedido_id expires_at k refl) in
      rw (authorize_session-locked R h plan_id pedido_id expires_at sid id_given date_given) (
        (e, ap (λ r. r.0) free_run ∙ ap (λ r. r.0) thrown),
        (ap (λ r. R.get u j r.1.db) free_run
            ∙ ((Frames-release_lock R j k w.tokens other).at (body v).1).same u
            ∙ ap (λ r. R.get u j r.1.db) thrown
            ∙ rw (R.get-set w.clock u k j (token w.tokens) lock_ttl_ms w.db, other)),
        unlocked,
      )

  authorize_locked-idempotent :
      (v : World R) (s : Session)
      → R.get v.clock (session s.session_id) v.db ≡ some (json s)
      → s.status ≡ authorized
      → authorize_locked R h s.session_id plan_id pedido_id expires_at (quiet R v)
        ≡ (ok (record { session = s; idempotent = true }), quiet R v)
  unfolding authorize_locked get_session parse_session ◌>>◌
  authorize_locked-idempotent v s found is = simp (found, is)

  -- While Redis serves every command and the lock is free: a session that is already authorized is
  -- returned as it is stored, with `idempotent` set. The router is not called, and any key but
  -- the lock's own reads as before at any time.
  pub authorize_session-idempotent :
      (w : World R) (s : Session) (k : Key) (u : ℕ)
      → truthy (some s.session_id) ≡ true
      → given expires_at ≡ true
      → R.get w.clock (lock_authorize s.session_id) w.db ≡ none
      → R.get w.clock (session s.session_id) w.db ≡ some (json s)
      → s.status ≡ authorized
      → key_eq (lock_authorize s.session_id) k ≡ false
      → let r =
          authorize_session R s.session_id plan_id pedido_id expires_at (some h) (quiet R w) in
        (r.0 ≡ ok (record { session = s; idempotent = true }))
        × (r.1.calls ≡ w.calls)
        × (R.get u k r.1.db ≡ R.get u k w.db)
  authorize_session-idempotent w s j u id_given date_given free found is other =
      let sid = s.session_id in
      let k = lock_authorize sid in
      let body = authorize_locked R h sid plan_id pedido_id expires_at in
      let v = locked R k w in
      let found' : R.get w.clock (session sid) v.db ≡ some (json s) =
        rw (R.get-set w.clock w.clock k (session sid) (token w.tokens) lock_ttl_ms w.db) found in
      let same = authorize_locked-idempotent v s found' is in
      let free_run = with_lock_free R k body w free in
      rw (authorize_session-locked R h plan_id pedido_id expires_at sid id_given date_given) (
        ap (λ r. r.0) free_run ∙ ap (λ r. r.0) same,
        ap (λ r. r.1.calls) free_run
            ∙ release_lock-calls R k w.tokens (body v).1 (ap (λ r. r.1.faults) same)
            ∙ ap (λ r. r.1.calls) same,
        ap (λ r. R.get u j r.1.db) free_run
            ∙ ((Frames-release_lock R j k w.tokens other).at (body v).1).same u
            ∙ ap (λ r. R.get u j r.1.db) same
            ∙ rw (R.get-set w.clock u k j (token w.tokens) lock_ttl_ms w.db, other),
      )

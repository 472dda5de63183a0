-- ===== src/SessionStore/Revoke.antt =====
-- src/services/sessionStore.js: what `revokeSession` does.
use relay_cerebro_infra.Base.{
  ℕ, ◌+◌, String, Bool, true, false, Option, none, some, ◌≡◌, refl, ◌∙◌, ap, [], ◌∷◌, ◌++◌, ltb,
  truthy, str_eq_refl, if◌then◌else◌, arith,
}
use relay_cerebro_infra.Redis.{Redis}
use relay_cerebro_infra.SessionStore.{
  Session, Status, revoked, MkResult, answered, threw, Key, session, lock_revoke, Value, json,
  token, key_eq, lock_ttl_ms, cleanup_window_ms, allowed_transition, parse_session,
}
use relay_cerebro_infra.SessionStore.Exec.{ok, ◌>>◌, and_then, remove_binding, World, pure}
use relay_cerebro_infra.SessionStore.Ops.{get_session, persist_session, persist_indices}
use relay_cerebro_infra.SessionStore.Lifecycle.{
  Manager, Outcome, revoke_session, revoke_locked, revoke_on_router, revoked_session, with_lock,
  require_session, check_remove, is_closed,
}
use relay_cerebro_infra.SessionStore.Frame.{
  Frames, Frames-bind, Frames-then, Frames-pure, Frames-raise, Frames-if, Frames-now,
  Frames-router_call, Frames-get_session, Frames-persist_session, Frames-release_lock,
}
use relay_cerebro_infra.SessionStore.Indices.{
  index_not, Frames-persist_indices, Returns-persist_indices,
}
use relay_cerebro_infra.SessionStore.Locks.{quiet, is_lock, session_not}
use relay_cerebro_infra.SessionStore.WithLock.{
  locked, and_then_ok, with_lock_free, with_lock-released, release_lock-calls,
}

-- The states from which a session is revoked on the router; the other two are answered at once.
abbrev pub is_open : Status → Bool
is_open s = allowed_transition s revoked

-- `removeBinding` succeeded, or found nothing to remove.
abbrev pub is_removed : MkResult → Bool
is_removed (answered true n) = true
is_removed (answered false n) = n
is_removed threw = false

module _ (R : Redis Key Value key_eq) (h : Manager) (sid : String) where
  Frames-require : (k : Key) (o : Option Session) → Frames R k (require_session R sid o)
  Frames-require k none = Frames-raise R k _ _
  Frames-require k (some s) = Frames-pure R k s

  Frames-check_remove : (k : Key) (mk : MkResult) → Frames R k (check_remove R mk)
  Frames-check_remove k (answered true n) = Frames-pure R k tt
  Frames-check_remove k (answered false true) = Frames-pure R k tt
  Frames-check_remove k (answered false false) = Frames-raise R k _ _
  Frames-check_remove k threw = Frames-raise R k _ _

  Frames-revoke_on_router :
      (k : Key) (s : Session) → is_lock k ≡ true → Frames R k (revoke_on_router R h s)
  unfolding revoke_on_router
  Frames-revoke_on_router k s l =
      Frames-then R k _ _ (Frames-if R k _ _ _ (Frames-pure R k tt) (Frames-raise R k _ _)) (
        Frames-bind R k _ _ (Frames-router_call R k _ _) (λ mk.
          Frames-then R k _ _ (Frames-check_remove k mk) (
            Frames-bind R k _ _ (Frames-now R k) (λ time.
              Frames-bind R k _ _ (Frames-persist_session R k _ _ (session_not k _ l)) (λ ttl.
                Frames-then R k _ _ (Frames-persist_indices R k _ _ (index_not k l))
                  (Frames-pure R k _))))))

  pub Frames-revoke_locked : (k : Key) → is_lock k ≡ true → Frames R k (revoke_locked R h sid)
  unfolding revoke_locked
  Frames-revoke_locked k l = Frames-bind R k _ _ (Frames-get_session R k sid) (λ found.
      Frames-bind R k _ _ (Frames-require k found)
        (λ s. Frames-if R k _ _ _ (Frames-pure R k _) (Frames-revoke_on_router k s l)))

  not_closed : (s : Session) → is_open s.status ≡ true → is_closed R s.status ≡ false
  unfolding allowed_transition
  not_closed s a = ground arith

  removed : (mk : MkResult) (x : World R) → is_removed mk ≡ true → check_remove R mk x ≡ (ok tt, x)
  unfolding pure
  removed (answered true n) x e = refl
  removed (answered false true) x e = refl
  removed (answered false false) x e = cc
  removed threw x e = cc

  -- The world in which the indices are written.
  abbrev stored : Session → World R → World R
  stored s v = record (quiet R v) {
    calls = v.calls ++ remove_binding s.session_id ∷ [];
    db =
        R.set v.clock (session s.session_id) (json (revoked_session R s v.clock)) cleanup_window_ms
          v.db;
  }

  revoke_locked_closes :
      (v : World R) (s : Session)
      → R.get v.clock (session sid) v.db ≡ some (json s)
      → is_open s.status ≡ true
      → is_removed (h.removes s) ≡ true
      → revoke_locked R h sid (quiet R v)
        ≡ and_then
            (persist_indices R (revoked_session R s v.clock) cleanup_window_ms (stored s v))
            (λ _ x. (ok (record { session = revoked_session R s v.clock; idempotent = false }), x))
  unfolding revoke_locked revoke_on_router get_session parse_session persist_session ◌>>◌
      revoked_session
  revoke_locked_closes v s found allowed gone =
      rw
        (
          found,
          not_closed s allowed,
          allowed,
          removed (h.removes s)
              (record (quiet R v) { calls = v.calls ++ remove_binding s.session_id ∷ [] }) gone,
        )
        refl

  pub revoke_locked-closes :
      (v : World R) (s : Session)
      → R.get v.clock (session sid) v.db ≡ some (json s)
      → is_open s.status ≡ true
      → is_removed (h.removes s) ≡ true
      → let r = revoke_locked R h sid (quiet R v) in
        (r.0 ≡ ok (record { session = revoked_session R s v.clock; idempotent = false }))
        × (r.1.calls ≡ v.calls ++ remove_binding s.session_id ∷ [])
        × (r.1.faults ≡ [])
        × (r.1.clock ≡ v.clock)
        × ((u : ℕ)
            → R.get u (session s.session_id) r.1.db ≡ (
                if ltb u (v.clock + cleanup_window_ms)
                then some (json (revoked_session R s v.clock))
                else none))
  unfolding revoked_session
  revoke_locked-closes v s found allowed gone =
      let g = revoked_session R s v.clock in
      let x = stored s v in
      let done = Returns-persist_indices R g cleanup_window_ms in
      let kept = (Frames-persist_indices R (session s.session_id) g cleanup_window_ms refl).at x in
      rw (revoke_locked_closes v s found allowed gone) (
        rw
          (and_then_ok {B = Outcome} (persist_indices R g cleanup_window_ms x) tt
            (λ _ y. (ok (record { session = g; idempotent = false }), y)) (done.fine x refl))
          (
            refl,
            done.calls x refl,
            done.calm x refl,
            kept.time,
            λ u.
                kept.same u
                ∙ rw (
                  R.get-set v.clock u (session s.session_id) (session s.session_id) (json g)
                      cleanup_window_ms v.db,
                  str_eq_refl s.session_id,
                ),
          ))

module _ (R : Redis Key Value key_eq) (h : Manager) where
  pub revoke_session-locked :
      (sid : String)
      → truthy (some sid) ≡ true
      → revoke_session R sid (some h) ≡ with_lock R (lock_revoke sid) (revoke_locked R h sid)
  unfolding revoke_session
  revoke_session-locked sid a = rw a

  -- While Redis serves every command: for a session that is stored under its id, is pending or
  -- authorized, whose revoke lock is free, and whose binding the router removes or does not have,
  -- `revokeSession` returns the session revoked. It has called the router for that session once.
  -- The session is stored as revoked for the next six hours, and the lock is free again.
  pub revoke_session-revokes :
      (w : World R) (s : Session)
      → truthy (some s.session_id) ≡ true
      → R.get w.clock (lock_revoke s.session_id) w.db ≡ none
      → R.get w.clock (session s.session_id) w.db ≡ some (json s)
      → is_open s.status ≡ true
      → is_removed (h.removes s) ≡ true
      → let r = revoke_session R s.session_id (some h) (quiet R w) in
        let g = revoked_session R s w.clock in
        (r.0 ≡ ok (record { session = g; idempotent = false }))
        × (r.1.calls ≡ w.calls ++ remove_binding s.session_id ∷ [])
        × ((u : ℕ)
            → R.get u (session s.session_id) r.1.db
              ≡ (if ltb u (w.clock + cleanup_window_ms) then some (json g) else none))
        × (R.get w.clock (lock_revoke s.session_id) r.1.db ≡ none)
  revoke_session-revokes w s id_given free found allowed gone =
      let sid = s.session_id in
      let k = lock_revoke sid in
      let body = revoke_locked R h sid in
      let v = locked R k w in
      let found' : R.get w.clock (session sid) v.db ≡ some (json s) =
        rw (R.get-set w.clock w.clock k (session sid) (token w.tokens) lock_ttl_ms w.db) found in
      let (returns, calls, calm, time, stores) =
        revoke_locked-closes R h sid v s found' allowed gone in
      let unlocked = with_lock-released R k body w free (Frames-revoke_locked R h sid k refl) in
      let free_run = with_lock_free R k body w free in
      let after : World R = (body v).1 in
      rw (revoke_session-locked sid id_given) (
        ap (λ r. r.0) free_run ∙ returns,
        ap (λ r. r.1.calls) free_run ∙ release_lock-calls R k w.tokens after calm ∙ calls,
        (λ u.
            ap (λ r. R.get u (session sid) r.1.db) free_run
            ∙ ((Frames-release_lock R (session sid) k w.tokens refl).at after).same u
            ∙ stores u),
        unlocked,
      )

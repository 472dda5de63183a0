-- ===== src/SessionStore/Final.antt =====
-- src/services/sessionStore.js: what several calls in a row, or their callers, can rely on.
use relay_cerebro_infra.Base.{
  ℕ, ◌+◌, ◌<◌, String, true, Option, none, some, ◌≡◌, refl, ◌∙◌, inl, ltb, truthy, lt→ltb,
  if◌then◌else◌,
}
use relay_cerebro_infra.Redis.{Redis}
use relay_cerebro_infra.SessionStore.{
  Session, revoked, Key, session, lock_authorize, lock_revoke, Value, json, key_eq,
  cleanup_window_ms,
}
use relay_cerebro_infra.SessionStore.Exec.{Error, err, World}
use relay_cerebro_infra.SessionStore.Lifecycle.{
  Manager, Stamp, authorize_session, revoke_session, revoked_session, given,
}
use relay_cerebro_infra.SessionStore.Locks.{quiet}
use relay_cerebro_infra.SessionStore.AuthorizeFails.{authorize_session-keeps_store}
use relay_cerebro_infra.SessionStore.Revoke.{is_open, is_removed, revoke_session-revokes}

module _ (R : Redis Key Value key_eq) where
  -- The worlds that follow on one: in between, anything may happen that leaves the session's own key
  -- alone, and `authorizeSession` may be called for the session before a time, on its free lock.
  pub data Follows (sid : String) (deadline : ℕ) (w : World R) : World R → Type 0 where
    here : Follows sid deadline w w
    passes :
        (v t : World R)
        → ((u : ℕ) → R.get u (session sid) t.db ≡ R.get u (session sid) v.db)
        → Follows sid deadline w v
        → Follows sid deadline w t
    asks :
        (v : World R) (h : Manager) (plan_id pedido_id : Option String) (expires_at : Stamp)
        → given expires_at ≡ true
        → R.get v.clock (lock_authorize sid) v.db ≡ none
        → v.clock < deadline
        → Follows sid deadline w v
        → Follows sid deadline w
            (authorize_session R sid plan_id pedido_id expires_at (some h) (quiet R v)).1

  -- The session as it is stored until a time.
  abbrev Stored : Session → ℕ → World R → Type 0
  Stored g deadline t =
      (u : ℕ)
      → R.get u (session g.session_id) t.db ≡ (if ltb u deadline then some (json g) else none)

  refused :
      (g : Session) (deadline : ℕ) (h : Manager) (plan_id pedido_id : Option String)
      (expires_at : Stamp) (v : World R)
      → truthy (some g.session_id) ≡ true
      → g.status ≡ revoked
      → given expires_at ≡ true
      → R.get v.clock (lock_authorize g.session_id) v.db ≡ none
      → v.clock < deadline
      → Stored g deadline v
      → let q =
          authorize_session R g.session_id plan_id pedido_id expires_at (some h) (quiet R v) in
        ((e : Error) × (q.0 ≡ err e)) × Stored g deadline q.1
  refused g deadline h plan_id pedido_id expires_at v id_given closed date_given free early stored =
      let there : R.get v.clock (session g.session_id) v.db ≡ some (json g) =
        stored v.clock ∙ rw (lt→ltb v.clock deadline early) refl in
      let refusal = λ (u : ℕ).
        authorize_session-keeps_store R h plan_id pedido_id expires_at v g (session g.session_id) u
          id_given date_given free there (inl closed) refl in
      ((refusal 0).0, λ u. (refusal u).1 ∙ stored u)

  Follows-Stored :
      (g : Session) (deadline : ℕ) (w t : World R)
      → truthy (some g.session_id) ≡ true
      → g.status ≡ revoked
      → Stored g deadline w
      → Follows g.session_id deadline w t
      → Stored g deadline t
  Follows-Stored g deadline w _ id_given closed stored here = stored
  Follows-Stored g deadline w _ id_given closed stored (passes v t same before) =
      λ u. same u ∙ Follows-Stored g deadline w v id_given closed stored before u
  Follows-Stored g deadline w _ id_given closed stored
        (asks v h plan_id pedido_id expires_at date_given free early before) =
      (refused g deadline h plan_id pedido_id expires_at v id_given closed date_given free early
        (Follows-Stored g deadline w v id_given closed stored before)).1

  -- After a `revokeSession` that meets the conditions of `revoke_session-revokes`, and after any calls
  -- of `authorizeSession` for that session in the six hours that it is stored, each on its free lock,
  -- with other things in between that leave the session's key alone: one more such call throws,
  -- whatever the plan, the order, the expiry and the router say, and the session is still stored as
  -- revoked.
  pub revoked_stays_revoked :
      (h : Manager) (w : World R) (s : Session) (t : World R) (h' : Manager)
      (plan_id pedido_id : Option String) (expires_at : Stamp)
      → truthy (some s.session_id) ≡ true
      → R.get w.clock (lock_revoke s.session_id) w.db ≡ none
      → R.get w.clock (session s.session_id) w.db ≡ some (json s)
      → is_open s.status ≡ true
      → is_removed (h.removes s) ≡ true
      → Follows s.session_id
          (w.clock + cleanup_window_ms)
          (revoke_session R s.session_id (some h) (quiet R w)).1
          t
      → given expires_at ≡ true
      → R.get t.clock (lock_authorize s.session_id) t.db ≡ none
      → t.clock < w.clock + cleanup_window_ms
      → let q =
          authorize_session R s.session_id plan_id pedido_id expires_at (some h') (quiet R t) in
        ((e : Error) × (q.0 ≡ err e))
        × ((u : ℕ)
            → R.get u (session s.session_id) q.1.db ≡ (
                if ltb u (w.clock + cleanup_window_ms)
                then some (json (revoked_session R s w.clock))
                else none))
  unfolding revoked_session
  revoked_stays_revoked h w s t h' plan_id pedido_id expires_at id_given free found allowed gone
        follows date_given free' early =
      let g = revoked_session R s w.clock in
      let deadline = w.clock + cleanup_window_ms in
      let (returns, calls, stores, unlocked) =
        revoke_session-revokes R h w s id_given free found allowed gone in
      refused g deadline h' plan_id pedido_id expires_at t id_given refl date_given free' early (
        Follows-Stored g deadline (revoke_session R s.session_id (some h) (quiet R w)).1 t id_given
          refl stores follows)

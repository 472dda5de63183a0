-- ===== src/SessionStore/WithLock.antt =====
-- src/services/sessionStore.js: a body run under a lock, as `authorizeSession` and `revokeSession`
-- run theirs.
use relay_cerebro_infra.Base.{
  ℕ, suc, ◌+◌, true, false, none, some, ◌≡◌, refl, ◌∙◌, sym, ap, subst, [], ◌==◌, arith, lt→ltb,
}
use relay_cerebro_infra.Redis.{Redis}
use relay_cerebro_infra.SessionStore.{Key, Value, token, key_eq, lock_ttl_ms}
use relay_cerebro_infra.SessionStore.Exec.{Result, ok, M, ◌>>=◌, ◌>>◌, and_then, World}
use relay_cerebro_infra.SessionStore.Ops.{acquire_lock, release_lock, lock_attempts}
use relay_cerebro_infra.SessionStore.Lifecycle.{with_lock}
use relay_cerebro_infra.SessionStore.Frame.{Frames, Frames-release_lock}
use relay_cerebro_infra.SessionStore.Locks.{quiet, key_eq_refl}

pub and_then_ok :
    {S A B : Type 0} (r : Result A × S) (a : A) (f : A → M S B)
    → r.0 ≡ ok a
    → and_then r f ≡ f a r.1
and_then_ok r a f h = ground arith

module _ (R : Redis Key Value key_eq) where
  -- The world right after a free lock was taken.
  abbrev pub locked : Key → World R → World R
  locked k w = record (quiet R w) {
    tokens = suc w.tokens;
    db = R.set w.clock k (token w.tokens) lock_ttl_ms w.db;
  }

  acquire_free :
      (k : Key) (w : World R)
      → R.get w.clock k w.db ≡ none
      → acquire_lock R k (quiet R w) ≡ (ok w.tokens, locked k w)
  unfolding acquire_lock lock_attempts ◌>>◌
  acquire_free k w h = rw (R.set_nx_lem w.clock k (token w.tokens) lock_ttl_ms w.db, h)

  -- On a free lock the body runs right after the lock is taken, and the lock is released.
  pub with_lock_free :
      {A : Type 0} (k : Key) (body : M (World R) A) (w : World R)
      → R.get w.clock k w.db ≡ none
      → with_lock R k body (quiet R w)
        ≡ ((body (locked k w)).0, (release_lock R k w.tokens (body (locked k w)).1).1)
  unfolding ◌>>=◌
  with_lock_free k body w h = rw (acquire_free k w h)

  pub quiet-eq : (w : World R) → w.faults ≡ [] → w ≡ quiet R w
  quiet-eq w e = λ i. record w { faults = e i }

  eq_self : (n : ℕ) → (n == n) ≡ true
  eq_self n = ground arith

  release_held :
      (k : Key) (t : ℕ) (w : World R)
      → R.get w.clock k w.db ≡ some (token t)
      → R.get w.clock k (release_lock R k t (quiet R w)).1.db ≡ none
  unfolding release_lock ◌>>=◌
  release_held k t w h = rw (h, eq_self t, R.get-del w.clock w.clock k k w.db, key_eq_refl k)

  release_calm :
      (k : Key) (t c : ℕ) (w : World R)
      → w.faults ≡ []
      → w.clock ≡ c
      → R.get c k w.db ≡ some (token t)
      → R.get c k (release_lock R k t w).1.db ≡ none
  release_calm k t c w calm time h =
      subst (λ d. R.get d k (release_lock R k t w).1.db ≡ none) time
        (subst (λ x. R.get w.clock k (release_lock R k t x).1.db ≡ none) (sym (quiet-eq w calm))
          (release_held k t w (subst (λ d. R.get d k w.db ≡ some (token t)) (sym time) h)))

  set_now :
      (c : ℕ) (k : Key) (v : Value) (db : R.Db) → R.get c k (R.set c k v lock_ttl_ms db) ≡ some v
  set_now c k v db =
      rw (
        R.get-set c c k k v lock_ttl_ms db,
        key_eq_refl k,
        lt→ltb c (c + lock_ttl_ms) (omega arith),
      )

  -- The lock is free again afterwards, whatever the body gives, if the body leaves its key alone.
  pub with_lock-released :
      {A : Type 0} (k : Key) (body : M (World R) A) (w : World R)
      → R.get w.clock k w.db ≡ none
      → Frames R k body
      → R.get w.clock k (with_lock R k body (quiet R w)).1.db ≡ none
  with_lock-released k body w h f =
      let kept = f.at (locked k w) in
      rw (with_lock_free k body w h) (
        release_calm k w.tokens w.clock (body (locked k w)).1 (kept.calm refl) kept.time
          (kept.same w.clock ∙ set_now w.clock k (token w.tokens) w.db))

  release_quiet-calls :
      (k : Key) (t : ℕ) (w : World R) → (release_lock R k t (quiet R w)).1.calls ≡ w.calls
  unfolding release_lock ◌>>=◌
  release_quiet-calls k t w = refl

  -- Releasing a lock calls no router.
  pub release_lock-calls :
      (k : Key) (t : ℕ) (w : World R) → w.faults ≡ [] → (release_lock R k t w).1.calls ≡ w.calls
  release_lock-calls k t w calm =
      subst (λ x. (release_lock R k t x).1.calls ≡ x.calls) (sym (quiet-eq w calm))
        (release_quiet-calls k t w)

  -- A key that the body leaves alone, other than the lock's own, reads as before.
  pub with_lock-same :
      {A : Type 0} (k j : Key) (body : M (World R) A) (w : World R)
      → R.get w.clock k w.db ≡ none
      → key_eq k j ≡ false
      → Frames R j body
      → ((u : ℕ) → R.get u j (with_lock R k body (quiet R w)).1.db ≡ R.get u j w.db)
        × ((with_lock R k body (quiet R w)).1.clock ≡ w.clock)
  with_lock-same k j body w h other f =
      let kept = f.at (locked k w) in
      let free_run = with_lock_free k body w h in
      let freed = (Frames-release_lock R j k w.tokens other).at (body (locked k w)).1 in
      (
        λ u.
            ap (λ r. R.get u j r.1.db) free_run
            ∙ freed.same u
            ∙ kept.same u
            ∙ rw (R.get-set w.clock u k j (token w.tokens) lock_ttl_ms w.db, other),
        ap (λ r. r.1.clock) free_run ∙ freed.time ∙ kept.time,
      )

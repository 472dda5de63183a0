-- ===== src/SessionStore/Locks.antt =====
-- src/services/sessionStore.js: what `acquireLock` and `releaseLock` guarantee while Redis serves
-- every command.
use relay_cerebro_infra.Base.{
  ℕ, zero, suc, ◌+◌, ◌*◌, ◌<◌, String, Bool, true, false, none, some, ◌≡◌, refl, subst, ◌⊎◌, inl,
  inr, [], str_eq_refl, is_some, eq_iff, arith, Option-cases, ◌↔◌,
}
use native.Mathlib.Nat.{add-zero}
use relay_cerebro_infra.Redis.{Redis}
use relay_cerebro_infra.SessionStore.{
  Key, session, idx_ip, idx_mac, idx_pedido, lock_authorize, lock_revoke, lock_create, Value, token,
  key_eq, lock_ttl_ms, lock_retry_ms, max_lock_retries,
}
use relay_cerebro_infra.SessionStore.Exec.{lock_timeout, Result, ok, err, ◌>>◌, World}
use relay_cerebro_infra.SessionStore.Ops.{lock_attempts, acquire_lock}

pub key_eq_refl : (k : Key) → key_eq k k ≡ true
key_eq_refl (session a) = str_eq_refl a
key_eq_refl (idx_ip a) = str_eq_refl a
key_eq_refl (idx_mac a) = str_eq_refl a
key_eq_refl (idx_pedido a) = str_eq_refl a
key_eq_refl (lock_authorize a) = str_eq_refl a
key_eq_refl (lock_revoke a) = str_eq_refl a
key_eq_refl (lock_create a) = str_eq_refl a

pub key_eq_sound : (j k : Key) → key_eq j k ≡ true → j ≡ k
key_eq_sound (session a) (session b) h = ground (arith, eq_iff a b)
key_eq_sound (idx_ip a) (idx_ip b) h = ground (arith, eq_iff a b)
key_eq_sound (idx_mac a) (idx_mac b) h = ground (arith, eq_iff a b)
key_eq_sound (idx_pedido a) (idx_pedido b) h = ground (arith, eq_iff a b)
key_eq_sound (lock_authorize a) (lock_authorize b) h = ground (arith, eq_iff a b)
key_eq_sound (lock_revoke a) (lock_revoke b) h = ground (arith, eq_iff a b)
key_eq_sound (lock_create a) (lock_create b) h = ground (arith, eq_iff a b)
key_eq_sound _ _ h = cc

pub key_eq_iff : (j k : Key) → (key_eq j k ≡ true) ↔ (j ≡ k)
key_eq_iff j k = (key_eq_sound j k, λ e. subst (λ i. key_eq j i ≡ true) e (key_eq_refl j))

abbrev pub is_lock : Key → Bool
is_lock (lock_authorize a) = true
is_lock (lock_revoke a) = true
is_lock (lock_create a) = true
is_lock _ = false

pub session_not : (k : Key) (a : String) → is_lock k ≡ true → key_eq (session a) k ≡ false
session_not (session b) a h = cc
session_not _ a h = refl

module _ (R : Redis Key Value key_eq) where
  -- A world whose Redis serves every command from here on.
  abbrev pub quiet : World R → World R
  quiet w = record w { faults = [] }

  -- The world after `n` failed attempts.
  abbrev pub waited : ℕ → World R → World R
  waited zero w = w
  waited (suc n) w = waited n (record w { clock = w.clock + lock_retry_ms })

  attempt_free :
      (n : ℕ) (k : Key) (t : ℕ) (w : World R)
      → R.get w.clock k w.db ≡ none
      → lock_attempts R (suc n) k t (quiet w)
        ≡ (ok t, record (quiet w) { db = R.set w.clock k (token t) lock_ttl_ms w.db })
  unfolding lock_attempts ◌>>◌
  attempt_free n k t w h = rw (R.set_nx_lem w.clock k (token t) lock_ttl_ms w.db, h)

  attempt_held :
      (n : ℕ) (k : Key) (t : ℕ) (w : World R) (v : Value)
      → R.get w.clock k w.db ≡ some v
      → lock_attempts R (suc n) k t (quiet w)
        ≡ lock_attempts R n k t (quiet (record w { clock = w.clock + lock_retry_ms }))
  unfolding lock_attempts ◌>>◌
  attempt_held n k t w v h = rw (R.set_nx_lem w.clock k (token t) lock_ttl_ms w.db, h)

  -- The lock is held at each of the first `n` attempts, 100 ms apart.
  abbrev pub AlwaysHeld : Key → World R → ℕ → Type 0
  AlwaysHeld k w zero = Unit {0}
  AlwaysHeld k w (suc n) =
      (is_some (R.get (w.clock + n * lock_retry_ms) k w.db) ≡ true) × AlwaysHeld k w n

  -- The lock is free at attempt `i`, counted from 0, and was held at each earlier one.
  abbrev pub FirstFree : Key → World R → ℕ → Type 0
  FirstFree k w i = (R.get (w.clock + i * lock_retry_ms) k w.db ≡ none) × AlwaysHeld k w i

  -- What a run of `n` attempts gives.
  abbrev pub AttemptsGive : ℕ → Key → ℕ → World R → Result ℕ × World R → Type 0
  AttemptsGive n k t w r =
      ((i : ℕ) × (i < n)
        × FirstFree k w i
        × (r ≡ (
          ok t,
          record (quiet w) {
            clock = w.clock + i * lock_retry_ms;
            db = R.set (w.clock + i * lock_retry_ms) k (token t) lock_ttl_ms w.db;
          },
        )))
      ⊎ (AlwaysHeld k w n
          × (r ≡ (err (lock_timeout k), record (quiet w) { clock = w.clock + n * lock_retry_ms })))

  shift : (c i : ℕ) → c + lock_retry_ms + i * lock_retry_ms ≡ c + suc i * lock_retry_ms
  shift c i = omega arith

  held_shift :
      (k : Key) (w : World R) (n : ℕ) (v : Value)
      → R.get w.clock k w.db ≡ some v
      → AlwaysHeld k (record w { clock = w.clock + lock_retry_ms }) n
      → AlwaysHeld k w (suc n)
  held_shift k w zero v h held = (rw (add-zero, h), tt)
  held_shift k w (suc n) v h held = (rw (← shift w.clock n) held.0, held_shift k w n v h held.1)

  attempts_give :
      (n : ℕ) (k : Key) (t : ℕ) (w : World R)
      → AttemptsGive n k t w (lock_attempts R n k t (quiet w))
  unfolding lock_attempts ◌>>◌
  attempts_give zero k t w = inr (tt, rw add-zero)
  attempts_give (suc n) k t w = elim (Option-cases (R.get w.clock k w.db)) [
    | inl free ↦
        inl (0, omega arith, (rw add-zero free, tt), rw add-zero (attempt_free n k t w free))
    | inr (v, held) ↦
        rw (attempt_held n k t w v held)
          (elim (attempts_give n k t (record w { clock = w.clock + lock_retry_ms })) [
            | inl (i, lt, (free, before), e) ↦ inl (
              suc i,
              omega arith,
              (rw (← shift w.clock i) free, held_shift k w i v held before),
              rw (← shift w.clock i) e,
            )
            | inr (all_held, e) ↦ inr (held_shift k w n v held all_held, rw (← shift w.clock n) e)
          ])
  ]

  -- While Redis serves every command, `acquireLock` does one of two things. Either the lock is
  -- first free at one of its 60 attempts, 100 ms apart, and it then holds a fresh token, stored
  -- with the lock's TTL at that moment; or it was held at all 60, and the call throws a timeout
  -- after 6 s and leaves Redis as it was.
  pub acquire_lock-cases :
      (k : Key) (w : World R)
      → AttemptsGive max_lock_retries k w.tokens
          (record w { tokens = suc w.tokens })
          (acquire_lock R k (quiet w))
  unfolding acquire_lock ◌>>◌
  acquire_lock-cases k w = attempts_give 60 k w.tokens (record w { tokens = suc w.tokens })

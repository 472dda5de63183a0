-- ===== src/JobStore/Locks.antt =====
-- src/services/jobStore.js: the in-process locks under the calls of several holders.
use relay_cerebro_infra.Base.{
  ℕ, ◌+◌, ◌≤◌, String, Option, none, some, ◌≡◌, ◌≢◌, List, [], ◌∷◌, str_eq_refl, eq_iff, arith,
}
use relay_cerebro_infra.Base.Dict.{lookup, lookup-insert, lookup-remove}
use relay_cerebro_infra.JobStore.{Lock, LockMap, acquire_lock, extend_lock, release_lock}

-- A call of the lock's functions on some job, with its time.
pub data LockCall : Type 0 where
  acquires : String → ℕ → ℕ → ℕ → LockCall
  extends : String → ℕ → ℕ → ℕ → LockCall
  releases : String → Option ℕ → LockCall

unfoldable pub lock_step : LockCall → LockMap → LockMap
unfolding acquire_lock extend_lock release_lock
lock_step (acquires k ttl token now) locks = (acquire_lock k ttl token now locks).0
lock_step (extends k token ttl now) locks = (extend_lock k token ttl now locks).0
lock_step (releases k token) locks = release_lock k token locks

unfoldable pub lock_run : List LockCall → LockMap → LockMap
lock_run [] locks = locks
lock_run (c ∷ cs) locks = lock_run cs (lock_step c locks)

-- A call of somebody who does not hold the token `t` of the lock of `k`, no later than `deadline`, and
-- does not release that lock without a token.
abbrev pub IsForeign : String → ℕ → ℕ → LockCall → Type 0
IsForeign k t deadline (acquires j ttl token now) = now ≤ deadline
IsForeign k t deadline (extends j token ttl now) = token ≢ t
IsForeign k t deadline (releases j (some token)) = token ≢ t
IsForeign k t deadline (releases j none) = j ≢ k

abbrev pub AllForeign : String → ℕ → ℕ → List LockCall → Type 0
AllForeign k t deadline [] = Unit {0}
AllForeign k t deadline (c ∷ cs) = IsForeign k t deadline c × AllForeign k t deadline cs

lock_step-keeps :
    (c : LockCall) (k : String) (l : Lock) (locks : LockMap)
    → IsForeign k l.token l.expires_at c
    → lookup k locks ≡ some l
    → lookup k (lock_step c locks) ≡ some l
unfolding lock_step
lock_step-keeps (acquires j ttl token now) k l locks f h =
    ground (
      arith,
      eq_iff j k,
      lookup-insert j k (record { token = token; expires_at = now + ttl }) locks,
    )
lock_step-keeps (extends j token ttl now) k l locks f h =
    ground (
      arith,
      eq_iff j k,
      lookup-insert j k (record { token = token; expires_at = now + ttl }) locks,
    )
lock_step-keeps (releases j (some token)) k l locks f h =
    ground (arith, eq_iff j k, lookup-remove j k locks)
lock_step-keeps (releases j none) k l locks f h =
    ground (arith, eq_iff j k, lookup-remove j k locks)

lock_run-keeps :
    (cs : List LockCall) (k : String) (l : Lock) (locks : LockMap)
    → AllForeign k l.token l.expires_at cs
    → lookup k locks ≡ some l
    → lookup k (lock_run cs locks) ≡ some l
unfolding lock_run
lock_run-keeps [] k l locks f h = h
lock_run-keeps (c ∷ cs) k l locks f h =
    lock_run-keeps cs k l (lock_step c locks) f.1 (lock_step-keeps c k l locks f.0 h)

acquire_lock-holds :
    (k : String) (ttl t now : ℕ) (locks : LockMap)
    → (acquire_lock k ttl t now locks).1 ≡ some t
    → lookup k (acquire_lock k ttl t now locks).0
      ≡ some (record { token = t; expires_at = now + ttl })
unfolding acquire_lock
acquire_lock-holds k ttl t now locks got =
    ground
      (arith, lookup-insert k k (record { token = t; expires_at = now + ttl }) locks, str_eq_refl k)

acquire_lock-refuses :
    (k : String) (ttl token now : ℕ) (locks : LockMap) (l : Lock)
    → lookup k locks ≡ some l
    → now ≤ l.expires_at
    → (acquire_lock k ttl token now locks).1 ≡ none
unfolding acquire_lock
acquire_lock-refuses k ttl token now locks l held early = ground arith

-- Once a lock was acquired with a token, no sequence of calls by others on any jobs (acquisitions
-- up to the lock's expiry, extensions and releases under other tokens, and releases without a token of
-- the locks of other jobs) takes it away: the token still holds it, and another acquisition of it up to
-- the expiry fails.
pub acquired_excludes :
    (k : String) (ttl t now : ℕ) (locks : LockMap) (cs : List LockCall) (token later ttl' : ℕ)
    → (acquire_lock k ttl t now locks).1 ≡ some t
    → AllForeign k t (now + ttl) cs
    → later ≤ now + ttl
    → let after = lock_run cs (acquire_lock k ttl t now locks).0 in
      (lookup k after ≡ some (record { token = t; expires_at = now + ttl }))
      × ((acquire_lock k ttl' token later after).1 ≡ none)
acquired_excludes k ttl t now locks cs token later ttl' got foreign early =
    let l : Lock = record { token = t; expires_at = now + ttl } in
    let held =
      lock_run-keeps cs k l (acquire_lock k ttl t now locks).0 foreign
        (acquire_lock-holds k ttl t now locks got) in
    (held, acquire_lock-refuses k ttl' token later _ l held early)

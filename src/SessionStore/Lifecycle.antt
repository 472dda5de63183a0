-- ===== src/SessionStore/Lifecycle.antt =====
-- src/services/sessionStore.js: `getOrCreateSession`, `authorizeSession` and `revokeSession`.
use relay_cerebro_infra.Base.{
  ℕ, zero, suc, String, Bool, true, false, ◌&&◌, Option, none, some, truthy, if◌then◌else◌,
}
use relay_cerebro_infra.Redis.{Redis}
use relay_cerebro_infra.SessionStore.{
  Session, SessionData, Status, authorized, revoked, expired, MkResult, answered, threw, Key,
  lock_authorize, lock_revoke, lock_create, Value, key_eq, cleanup_window_ms,
  compute_session_ttl_ms, allowed_transition,
}
use relay_cerebro_infra.SessionStore.Exec.{
  session_not_found, invalid_transition, mikrotik_failed, mikrotik_exception, missing_argument,
  type_error, M, ◌>>=◌, ◌>>◌, pure, raise, finally, add_binding, remove_binding, World, now,
  router_call,
}
use relay_cerebro_infra.SessionStore.Ops.{
  Patch, acquire_lock, release_lock, persist_session, persist_indices, create_session, get_session,
  update_session, find_by_ip, find_by_mac, find_by_pedido_id,
}

-- The argument of `getOrCreateSession`; its `source` is only logged and passed on unused.
pub record Request : Type 0 where
  pub ip : Option String
  pub mac : Option String
  pub router : Option String
  pub identity : Option String
  pub pedido_id : Option String
  pub plan_id : Option String

-- The objects that it hands to `updateSession` and `createSession`.
abbrev pub by_pedido_patch : Request → Patch
by_pedido_patch q = record {
  ip = some q.ip;
  mac = some q.mac;
  router = some q.router;
  identity = some q.identity;
  status = none;
  active = none;
}

abbrev pub by_mac_patch : Request → Patch
by_mac_patch q = record {
  ip = some q.ip;
  mac = none;
  router = some q.router;
  identity = some q.identity;
  status = none;
  active = none;
}

abbrev pub by_ip_patch : Request → Patch
by_ip_patch q = record {
  ip = none;
  mac = some q.mac;
  router = some q.router;
  identity = some q.identity;
  status = none;
  active = none;
}

abbrev pub new_session_data : Request → SessionData
new_session_data q = record {
  session_id = none;
  ip = q.ip;
  mac = q.mac;
  router = q.router;
  identity = q.identity;
  expires_at = none;
  plan_id = q.plan_id;
  pedido_id = none;
  plano = none;
  active = false;
}

-- `a || b`.
abbrev or_else_text : Option String → Option String → Option String
or_else_text a b = if truthy a then a else b

-- A template literal on undefined.
abbrev shown : Option String → String
shown none = "undefined"
shown (some s) = s

abbrev pub fingerprint : Request → String
fingerprint q = shown (or_else_text q.pedido_id (or_else_text q.mac q.ip))

-- `expiresAt` as the callers pass it: missing, a number, or a text that is no numeral, such as an
-- ISO date.
pub data Stamp : Type 0 where
  missing iso_text : Stamp
  number : ℕ → Stamp

abbrev pub given : Stamp → Bool
given missing = false
given iso_text = true
given (number zero) = false
given (number (suc n)) = true

-- `Number(expiresAt)`, with NaN as `none`.
abbrev pub to_number : Stamp → Option ℕ
to_number (number n) = some n
to_number _ = none

-- The methods of the hotspot manager that the store is handed.
pub record Manager : Type 0 where
  pub adds : Session → MkResult
  pub removes : Session → MkResult

pub record Outcome : Type 0 where
  pub session : Session
  pub idempotent : Bool

module _ (R : Redis Key Value key_eq) where
  -- The reuse of a found session: `updated.sessionId` throws where the update finds none.
  abbrev pub reuse : Option Session → M (World R) Session
  reuse none = raise type_error
  reuse (some s) = pure s

  abbrev pub try_reuse :
      Option Session
      → (Session → M (World R) (Option Session))
      → M (World R) Session
      → M (World R) Session
  try_reuse none update next = next
  try_reuse (some s) update next = do updated ← update s; reuse updated

  -- Steps 5 and 6, under the lock.
  unfoldable pub create_locked : (ℕ → String) → Request → M (World R) Session
  create_locked uuid q = do
    by_pedido ← find_by_pedido_id R q.pedido_id
    try_reuse by_pedido (λ s. update_session R s.session_id (by_pedido_patch q))
        (do
          by_mac ← find_by_mac R q.mac
          try_reuse by_mac (λ s. update_session R s.session_id (by_mac_patch q))
              (create_session R uuid (new_session_data q)))

  unfoldable pub get_or_create_session : (ℕ → String) → Request → M (World R) Session
  get_or_create_session uuid q = do
    by_pedido ← find_by_pedido_id R q.pedido_id
    try_reuse by_pedido (λ s. update_session R s.session_id (by_pedido_patch q))
        (do
          by_mac ← find_by_mac R q.mac
          try_reuse by_mac (λ s. update_session R s.session_id (by_mac_patch q))
              (do
                by_ip ← find_by_ip R q.ip
                try_reuse by_ip (λ s. update_session R s.session_id (by_ip_patch q))
                    (do
                      let k = lock_create (fingerprint q)
                      t ← acquire_lock R k
                      finally (create_locked uuid q) (release_lock R k t))))

  abbrev pub require_session : String → Option Session → M (World R) Session
  require_session sid none = raise (session_not_found sid)
  require_session sid (some s) = pure s

  abbrev pub validate_transition : Status → Status → M (World R) (Unit {0})
  validate_transition old new =
      if allowed_transition old new then pure tt else raise (invalid_transition old new)

  abbrev pub check_add : MkResult → M (World R) (Unit {0})
  check_add (answered true not_found) = pure tt
  check_add (answered false not_found) = raise mikrotik_failed
  check_add threw = raise mikrotik_exception

  abbrev pub check_remove : MkResult → M (World R) (Unit {0})
  check_remove (answered true not_found) = pure tt
  check_remove (answered false true) = pure tt
  check_remove (answered false false) = raise mikrotik_failed
  check_remove threw = raise mikrotik_exception

  abbrev pub is_authorized : Status → Bool
  is_authorized authorized = true
  is_authorized _ = false

  abbrev pub is_closed : Status → Bool
  is_closed revoked = true
  is_closed expired = true
  is_closed _ = false

  unfoldable pub authorized_session :
      Session → Option String → Option String → Stamp → MkResult → ℕ → Session
  authorized_session s plan_id pedido_id expires_at mk time = record s {
    status = authorized;
    authorized_at = some time;
    expires_at = to_number expires_at;
    plan_id = plan_id;
    pedido_id = pedido_id;
    updated_at = time;
    last_mikrotik_result = some mk;
    active = true;
  }

  -- Steps 4 to 9 of `authorizeSession`, on a session that may be authorized.
  unfoldable pub authorize_on_router :
      Manager → Option String → Option String → Stamp → Session → M (World R) Outcome
  authorize_on_router h plan_id pedido_id expires_at s = do
    validate_transition s.status authorized
    mk ← router_call R (add_binding s.session_id) (h.adds s)
    check_add mk
    time ← now R
    let updated = authorized_session s plan_id pedido_id expires_at mk time
    let ttl = compute_session_ttl_ms time updated
    _ ← persist_session R updated ttl
    persist_indices R updated ttl
    pure (record { session = updated; idempotent = false })

  unfoldable pub authorize_locked :
      Manager → String → Option String → Option String → Stamp → M (World R) Outcome
  authorize_locked h sid plan_id pedido_id expires_at = do
    found ← get_session R sid
    s ← require_session sid found
    if is_authorized s.status
        then pure (record { session = s; idempotent = true })
        else authorize_on_router h plan_id pedido_id expires_at s

  abbrev pub with_lock : {A : Type 0} → Key → M (World R) A → M (World R) A
  with_lock k body = do t ← acquire_lock R k; finally body (release_lock R k t)

  unfoldable pub authorize_session :
      String → Option String → Option String → Stamp → Option Manager → M (World R) Outcome
  authorize_session sid plan_id pedido_id expires_at none = raise missing_argument
  authorize_session sid plan_id pedido_id expires_at (some h) =
      if truthy (some sid) && given expires_at
      then with_lock (lock_authorize sid) (authorize_locked h sid plan_id pedido_id expires_at)
      else raise missing_argument

  unfoldable pub revoked_session : Session → ℕ → Session
  revoked_session s time = record s {
    status = revoked;
    revoked_at = some time;
    updated_at = time;
    active = false;
  }

  unfoldable pub revoke_on_router : Manager → Session → M (World R) Outcome
  revoke_on_router h s = do
    validate_transition s.status revoked
    mk ← router_call R (remove_binding s.session_id) (h.removes s)
    check_remove mk
    time ← now R
    let updated = revoked_session s time
    _ ← persist_session R updated cleanup_window_ms
    persist_indices R updated cleanup_window_ms
    pure (record { session = updated; idempotent = false })

  unfoldable pub revoke_locked : Manager → String → M (World R) Outcome
  revoke_locked h sid = do
    found ← get_session R sid
    s ← require_session sid found
    if is_closed s.status
        then pure (record { session = s; idempotent = true })
        else revoke_on_router h s

  unfoldable pub revoke_session : String → Option Manager → M (World R) Outcome
  revoke_session sid none = raise missing_argument
  revoke_session sid (some h) =
      if truthy (some sid)
      then with_lock (lock_revoke sid) (revoke_locked h sid)
      else raise missing_argument

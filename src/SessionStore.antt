-- ===== src/SessionStore.antt =====
-- src/services/sessionStore.js: the data, the keys and the pure helpers. The operations are in the
-- modules below.
pub mod Exec
pub mod Ops
pub mod Lifecycle
pub mod Locks
pub mod Frame
pub mod Ttl
pub mod Authorize
pub mod AuthorizeFails
pub mod Revoke
pub mod Final
pub mod Find
pub mod Create
pub mod GetOrCreate
mod Tests
pub mod Indices
pub mod WithLock
use relay_cerebro_infra.Base.{
  ℕ, zero, ◌+◌, ◌-◌, ◌*◌, String, Bool, true, false, ◌||◌, Option, none, some, List, [], ◌∷◌, ltb,
  leb, str_eq, or_null, if◌then◌else◌,
}

-- `LOCK_TTL_MS`, `LOCK_RETRY_MS`, `MAX_LOCK_RETRIES`, `CLEANUP_WINDOW_MS`, `MIN_TTL_MS`.
abbrev pub lock_ttl_ms : ℕ
lock_ttl_ms = 120 * 1000

abbrev pub lock_retry_ms : ℕ
lock_retry_ms = 100

abbrev pub max_lock_retries : ℕ
max_lock_retries = 60

abbrev pub cleanup_window_ms : ℕ
cleanup_window_ms = 6 * 60 * 60 * 1000

abbrev pub min_ttl_ms : ℕ
min_ttl_ms = 60 * 1000

pub data Status : Type 0 where
  pending authorized revoked expired : Status

-- What a call of the router answers: an object with its `ok` and `notFound`, or an exception.
pub data MkResult : Type 0 where
  answered : Bool → Bool → MkResult
  threw : MkResult

-- `none` stands for null and for undefined, which JSON.stringify drops. `expires_at` is `none` too
-- where `Number(expiresAt)` is NaN, which JSON.stringify writes as null.
pub record Session : Type 0 where
  pub session_id : String
  pub ip : Option String
  pub mac : Option String
  pub router : Option String
  pub identity : Option String
  pub status : Status
  pub created_at : ℕ
  pub updated_at : ℕ
  pub expires_at : Option ℕ
  pub plan_id : Option String
  pub pedido_id : Option String
  pub plano : Option String
  pub active : Bool
  pub last_mikrotik_result : Option MkResult
  pub authorized_at : Option ℕ
  pub revoked_at : Option ℕ

-- The keys, each constructor one prefix of the source. No prefix is the beginning of another.
pub data Key : Type 0 where
  session idx_ip idx_mac idx_pedido lock_authorize lock_revoke lock_create : String → Key

abbrev pub key_eq : Key → Key → Bool
key_eq (session a) (session b) = str_eq a b
key_eq (idx_ip a) (idx_ip b) = str_eq a b
key_eq (idx_mac a) (idx_mac b) = str_eq a b
key_eq (idx_pedido a) (idx_pedido b) = str_eq a b
key_eq (lock_authorize a) (lock_authorize b) = str_eq a b
key_eq (lock_revoke a) (lock_revoke b) = str_eq a b
key_eq (lock_create a) (lock_create b) = str_eq a b
key_eq _ _ = false

-- What stands under a key: a session's JSON, the id that an index points to, a lock's token, or
-- other text, which JSON.parse refuses.
pub data Value : Type 0 where
  json : Session → Value
  id : String → Value
  token : ℕ → Value
  garbage : Value

unfoldable pub parse_session : Option Value → Option Session
parse_session (some (json s)) = some s
parse_session _ = none

abbrev ttl_from : ℕ → Option ℕ → ℕ
ttl_from now none = min_ttl_ms
ttl_from now (some e) =
    if leb e now
    then min_ttl_ms
    else (if leb min_ttl_ms (e - now + cleanup_window_ms)
        then e - now + cleanup_window_ms
        else min_ttl_ms)

unfoldable pub compute_session_ttl_ms : ℕ → Session → ℕ
compute_session_ttl_ms now s = ttl_from now s.expires_at

-- `ALLOWED_TRANSITIONS`, and the test of `validateStateTransition`.
unfoldable pub allowed_transition : Status → Status → Bool
allowed_transition pending authorized = true
allowed_transition pending revoked = true
allowed_transition pending expired = true
allowed_transition authorized revoked = true
allowed_transition authorized expired = true
allowed_transition expired authorized = true
allowed_transition _ _ = false

-- The argument of `createSession`.
pub record SessionData : Type 0 where
  pub session_id : Option String
  pub ip : Option String
  pub mac : Option String
  pub router : Option String
  pub identity : Option String
  pub expires_at : Option ℕ
  pub plan_id : Option String
  pub pedido_id : Option String
  pub plano : Option String
  pub active : Bool

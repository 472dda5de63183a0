-- ===== src/RouterHealth.antt =====
-- src/services/routerHealth.js: the health of each router, in memory and as a hash in Redis. Times
-- are natural numbers of milliseconds; `now` stands for `Date.now()`. The gauge, the logs and the
-- alerts are left out. What HGETALL gives is an argument; numbers stand for the texts that they are
-- written as, and parseInt gives them back.
mod Circuit
mod Shared
mod Tests
use relay_cerebro_infra.Base.{
  ℕ, ◌+◌, ◌*◌, String, Bool, true, false, ◌||◌, Option, none, some, List, [], ◌∷◌, leb, ltb, ◌==◌,
  str_eq, if◌then◌else◌, truthy, or_null,
}
use relay_cerebro_infra.Base.Dict.{lookup, insert}
use relay_cerebro_infra.Errors.{Class, setup, auth, transient, inconsistent, unknown, Verdict}

-- `STATES`.
pub data HealthState : Type 0 where
  healthy degraded down_transient auth_failed misconfigured : HealthState

pub record Health : Type 0 where
  pub state : HealthState
  pub consecutive_fails : ℕ
  pub open_until : ℕ
  pub last_err_code : Option String
  pub next_retry_at : ℕ

pub record Settings : Type 0 where
  pub failure_threshold : ℕ
  pub recovery_timeout_ms : ℕ

abbrev pub default_settings : Settings
default_settings = record { failure_threshold = 5; recovery_timeout_ms = 60000 }

abbrev pub Store : Type 0
Store = List (String × Health)

abbrev pub new_health : Health
new_health = record {
  state = healthy;
  consecutive_fails = 0;
  open_until = 0;
  last_err_code = none;
  next_retry_at = 0;
}

abbrev pub or_new : Option Health → Health
or_new none = new_health
or_new (some h) = h

unfoldable pub get_health : String → Store → Health
unfolding lookup
get_health router_id store = or_new (lookup router_id store)

abbrev pub is_circuit_open : ℕ → Health → Bool
is_circuit_open now h = ltb now h.open_until

unfoldable pub can_attempt : ℕ → String → Store → Bool
unfolding get_health
can_attempt now router_id store =
    (((get_health router_id store).open_until) == 0)
    || leb (get_health router_id store).open_until now

-- `classification.openCircuitMs || d`.
abbrev pub open_ms : Option ℕ → ℕ → ℕ
open_ms none d = d
open_ms (some ms) d = if ms == 0 then d else ms

-- `classification.code || h.lastErrCode`.
abbrev pub code_or : String → Option String → Option String
code_or code old = if str_eq code "" then old else some code

-- The next health of a router, if the class of its failure changes it.
unfoldable pub next_health : Settings → ℕ → Class → Verdict → Health → Option Health
next_health st now setup v h = some (record h {
  last_err_code = code_or v.code h.last_err_code;
  state = misconfigured;
  open_until = now + open_ms v.open_circuit_ms (10 * 60 * 1000);
  consecutive_fails = h.consecutive_fails + 1;
})
next_health st now auth v h = some (record h {
  last_err_code = code_or v.code h.last_err_code;
  state = auth_failed;
  open_until = now + open_ms v.open_circuit_ms (15 * 60 * 1000);
  consecutive_fails = h.consecutive_fails + 1;
})
next_health st now transient v h = some (record h {
  last_err_code = code_or v.code h.last_err_code;
  consecutive_fails = h.consecutive_fails + 1;
  state = if leb st.failure_threshold (h.consecutive_fails + 1) then down_transient else degraded;
  open_until =
      if leb st.failure_threshold (h.consecutive_fails + 1)
      then now + st.recovery_timeout_ms
      else 0;
})
next_health st now inconsistent v h = none
next_health st now unknown v h = none

abbrev pub put_health : String → Option Health → Store → Store
put_health router_id none store = store
put_health router_id (some h) store = insert router_id h store

unfoldable pub update_router_health : Settings → ℕ → String → Verdict → Store → Store
unfolding get_health next_health insert
update_router_health st now router_id v store =
    if str_eq router_id ""
    then store
    else put_health router_id (next_health st now v.class_of v (get_health router_id store)) store

-- The fields that `persistToRedis` writes.
pub record RedisHash : Type 0 where
  pub state : HealthState
  pub consecutive_fails : ℕ
  pub open_until : ℕ
  pub last_err_code : String
  pub next_retry_at : ℕ

abbrev pub or_empty : Option String → String
or_empty none = ""
or_empty (some s) = s

unfoldable pub redis_hash : Health → RedisHash
redis_hash h = record {
  state = h.state;
  consecutive_fails = h.consecutive_fails;
  open_until = h.open_until;
  last_err_code = or_empty h.last_err_code;
  next_retry_at = h.next_retry_at;
}

-- `none` is the empty hash, which a key that is not there reads as.
unfoldable pub parse_redis_hash : Option RedisHash → Option Health
parse_redis_hash none = none
parse_redis_hash (some d) = some (record {
  state = d.state;
  consecutive_fails = d.consecutive_fails;
  open_until = d.open_until;
  last_err_code = or_null (some d.last_err_code);
  next_retry_at = d.next_retry_at;
})

-- What a read of Redis comes to: the hash of the router, or an error.
pub data HashRead : Type 0 where
  read : Option RedisHash → HashRead
  read_error : HashRead

unfoldable pub refresh_from_redis : String → HashRead → Store → Store
unfolding parse_redis_hash insert
refresh_from_redis router_id (read d) store = put_health router_id (parse_redis_hash d) store
refresh_from_redis router_id read_error store = store

-- `preloadRouterHealth`, with what each read comes to.
unfoldable pub preload_router_health : List (String × HashRead) → Store → Store
unfolding refresh_from_redis
preload_router_health [] store = store
preload_router_health ((router_id, r) ∷ rest) store =
    preload_router_health rest (refresh_from_redis router_id r store)

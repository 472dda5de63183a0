-- ===== src/CircuitBreaker.antt =====
-- src/services/circuitBreaker.js: the in-memory circuit breaker, one entry for each router.
-- `Date.now()` is the argument `now`; the module's `store` is passed and returned.
pub mod Invariant
pub mod Trace
mod Tests
use relay_cerebro_infra.Base.{
  ℕ, ◌+◌, ◌-◌, ◌*◌, String, Bool, true, false, Option, none, some, List, ltb, leb, if◌then◌else◌,
}
use relay_cerebro_infra.Base.Dict.{lookup, insert}

-- The values of `STATES`.
pub data State : Type 0 where
  closed open_ half : State

pub record Entry : Type 0 where
  pub failures : ℕ
  pub state : State
  pub opened_at : Option ℕ

pub record Options : Type 0 where
  pub failure_threshold : ℕ
  pub recovery_ms : ℕ

abbrev pub default_options : Options
default_options = record { failure_threshold = 5; recovery_ms = 60 * 1000 }

abbrev pub Store : Type 0
Store = List (String × Entry)

abbrev pub new_entry : Entry
new_entry = record { failures = 0; state = closed; opened_at = none }

abbrev or_new : Option Entry → Entry
or_new none = new_entry
or_new (some s) = s

-- `get(key)`: the entry, made on first use. Every caller writes it back.
unfoldable pub get : String → Store → Entry
get key store = or_new (lookup key store)

abbrev pub opened : Option ℕ → ℕ
opened none = 0
opened (some t) = t

-- The body of `allowRequest` on the entry of its router. A clock that runs backwards gives a
-- negative age in the source and 0 here, and neither passes `recovery_ms`.
unfoldable pub allow_entry : Options → ℕ → Entry → Entry × Bool
allow_entry o now s = elim s.state [
  | open_ ↦
      if ltb o.recovery_ms (now - opened s.opened_at)
      then (record s { state = half; failures = 0 }, true)
      else (s, false)
  | closed ↦ (s, true)
  | half ↦ (s, true)
]

unfoldable pub fail_entry : Options → ℕ → Entry → Entry
fail_entry o now s =
    let t = record s { failures = s.failures + 1 } in
    if leb o.failure_threshold (s.failures + 1)
    then record t { state = open_; opened_at = some now }
    else t

unfoldable pub success_entry : Entry → Entry
success_entry s = record s { failures = 0; state = closed }

unfoldable pub allow_request : Options → ℕ → String → Store → Store × Bool
unfolding allow_entry get
allow_request o now router_id store =
    let (s, allowed) = allow_entry o now (get router_id store) in
    (insert router_id s store, allowed)

unfoldable pub record_failure : Options → ℕ → String → Store → Store
unfolding fail_entry get
record_failure o now router_id store =
    insert router_id (fail_entry o now (get router_id store)) store

unfoldable pub record_success : String → Store → Store
unfolding success_entry get
record_success router_id store = insert router_id (success_entry (get router_id store)) store

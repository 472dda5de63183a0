-- ===== src/SessionStore/Tests.antt =====
-- src/services/sessionStore.js on a Redis in memory.
use relay_cerebro_infra.Base.{
  ◌+◌, sym, ◌∙◌, ℕ, ◌≡◌, refl, String, true, false, none, some, inr, [], ◌∷◌, arith,
}
use relay_cerebro_infra.Redis.{Redis}
use relay_cerebro_infra.Redis.Memory.{memory, get, set}
use relay_cerebro_infra.SessionStore.{
  cleanup_window_ms, Session, pending, authorized, answered, threw, Key, session, idx_ip,
  idx_pedido, lock_create, Value, json, id, token, key_eq, allowed_transition,
}
use relay_cerebro_infra.SessionStore.Exec.{Error, ok, err, add_binding, remove_binding, World}
use relay_cerebro_infra.SessionStore.Ops.{acquire_lock, build_session, create_session}
use relay_cerebro_infra.SessionStore.Lifecycle.{
  Manager, number, Request, new_session_data, authorize_session, revoke_session, revoked_session,
  get_or_create_session,
}
use relay_cerebro_infra.SessionStore.Locks.{key_eq_iff, quiet, AttemptsGive, acquire_lock-cases}
use relay_cerebro_infra.SessionStore.Authorize.{authorize_session-grants}
use relay_cerebro_infra.SessionStore.AuthorizeFails.{
  authorize_session-keeps_store, authorize_session-idempotent,
}
use relay_cerebro_infra.SessionStore.Revoke.{revoke_session-revokes}
use relay_cerebro_infra.SessionStore.Final.{Follows, here, passes, revoked_stays_revoked}
use relay_cerebro_infra.SessionStore.Create.{built, create_session-found}
use relay_cerebro_infra.SessionStore.GetOrCreate.{
  get_or_create-forgets_pedido, get_or_create-reuses_pedido,
}

abbrev redis : Redis Key Value key_eq
redis = memory key_eq key_eq_iff

abbrev client : Session
client = record {
  session_id = "s1";
  ip = some "10.0.0.2";
  mac = some "AA:BB:CC:DD:EE:FF";
  router = some "r1";
  identity = none;
  status = pending;
  created_at = 0;
  updated_at = 0;
  expires_at = none;
  plan_id = none;
  pedido_id = none;
  plano = none;
  active = false;
  last_mikrotik_result = none;
  authorized_at = none;
  revoked_at = none;
}

abbrev paid : Session
paid = record client { status = authorized; expires_at = some 90000; active = true }

abbrev world_with : Session → World redis
world_with s = record {
  db =
      (session "s1", json s, 100000)
      ∷ (idx_pedido "p1", id "s1", 100000)
      ∷ (idx_ip "10.0.0.2", id "s1", 100000)
      ∷ [];
  clock = 1000;
  tokens = 0;
  uuids = 0;
  faults = [];
  calls = [];
}

abbrev held_world : World redis
held_world = record (world_with client) { db = (lock_create "p1", token 9, 1250) ∷ [] }

abbrev router : Manager
router = record { adds = λ s. answered true false; removes = λ s. answered false true }

abbrev broken_router : Manager
broken_router = record { adds = λ s. threw; removes = λ s. threw }

acquire_lock-cases_example :
    AttemptsGive redis 60
      (lock_create "p1")
      0
      (record held_world { tokens = 1 })
      (acquire_lock redis (lock_create "p1") (quiet redis held_world))
acquire_lock-cases_example = acquire_lock-cases redis (lock_create "p1") held_world

authorize_session-grants_example :
    (authorize_session redis "s1"
      (some "plan")
      (some "p1")
      (number 90000)
      (some router)
      (quiet redis (world_with client))).1.calls
    ≡ add_binding "s1" ∷ []
unfolding get allowed_transition
authorize_session-grants_example =
    (authorize_session-grants redis router (some "plan") (some "p1") (number 90000)
      (world_with client) client false refl refl refl refl refl refl).1

authorize_session-keeps_store_example :
    get key_eq 2000
      (session "s1")
      (authorize_session redis "s1" none none
        (number 90000)
        (some broken_router)
        (quiet redis (world_with client))).1.db
    ≡ some (json client)
unfolding get allowed_transition
authorize_session-keeps_store_example =
    (authorize_session-keeps_store redis broken_router none none (number 90000) (world_with client)
      client (session "s1") 2000 refl refl refl refl (inr (refl, refl)) refl).1

authorize_session-idempotent_example :
    (authorize_session redis "s1" none none
      (number 90000)
      (some router)
      (quiet redis (world_with paid))).1.calls
    ≡ []
unfolding get
authorize_session-idempotent_example =
    (authorize_session-idempotent redis router none none (number 90000) (world_with paid) paid
      (session "s1") 2000 refl refl refl refl refl refl).1

revoke_session-revokes_example :
    (revoke_session redis "s1" (some router) (quiet redis (world_with paid))).1.calls
    ≡ remove_binding "s1" ∷ []
unfolding get allowed_transition
revoke_session-revokes_example =
    (revoke_session-revokes redis router (world_with paid) paid refl refl refl refl refl).1

-- An hour after the revocation, when nothing but the session is left.
abbrev an_hour_later : World redis
an_hour_later = record (world_with paid) {
  clock = 3601000;
  db = redis.set 1000 (session "s1") (json (revoked_session redis paid 1000)) cleanup_window_ms [];
}

an_hour_later-Follows :
    Follows redis "s1"
      (1000 + cleanup_window_ms)
      (revoke_session redis "s1" (some router) (quiet redis (world_with paid))).1
      an_hour_later
unfolding get allowed_transition
an_hour_later-Follows =
    let (returns, calls, stores, unlocked) =
      revoke_session-revokes redis router (world_with paid) paid refl refl refl refl refl in
    passes _ an_hour_later
      (λ u.
        redis.get-set 1000 u (session "s1") (session "s1") (json (revoked_session redis paid 1000))
          cleanup_window_ms []
        ∙ sym (stores u))
      here

revoked_stays_revoked_example :
    (e : Error) × ((authorize_session redis "s1" none none
        (number 90000)
        (some router)
        (quiet redis an_hour_later)).0
      ≡ err e)
unfolding get set allowed_transition
revoked_stays_revoked_example =
    (revoked_stays_revoked redis router (world_with paid) paid an_hour_later router none none
      (number 90000) refl refl refl refl refl an_hour_later-Follows refl refl (omega arith)).0

abbrev uuids : ℕ → String
uuids n = "u1"

abbrev request : Request
request = record {
  ip = some "10.0.0.9";
  mac = none;
  router = some "r1";
  identity = none;
  pedido_id = some "p9";
  plan_id = none;
}

create_session-found_example :
    (create_session redis uuids (new_session_data request) (quiet redis (world_with client))).0
    ≡ ok (built redis uuids (new_session_data request) (world_with client))
unfolding build_session
create_session-found_example =
    (create_session-found redis uuids (new_session_data request) (world_with client) 2000 refl
      (omega arith)).0

get_or_create-forgets_pedido_example :
    get key_eq 1000
      (idx_pedido "p9")
      (get_or_create_session redis uuids request (quiet redis (world_with client))).1.db
    ≡ none
unfolding get
get_or_create-forgets_pedido_example =
    (get_or_create-forgets_pedido redis uuids request (world_with client)
        (record { pedido = refl; mac = tt; ip = refl }) refl).2
      "p9" 1000

get_or_create-reuses_pedido_example :
    (get_or_create_session redis uuids
      (record request { pedido_id = some "p1" })
      (quiet redis (world_with client))).0
    ≡ ok (record client {
      ip = some "10.0.0.9";
      mac = none;
      router = some "r1";
      identity = none;
      updated_at = 1000;
    })
unfolding get
get_or_create-reuses_pedido_example =
    get_or_create-reuses_pedido redis uuids (record request { pedido_id = some "p1" })
      (world_with client) "p1" client refl refl refl refl refl

-- ===== src/Redis.antt =====
-- What the relay relies on of Redis, reached through ioredis (a third-party package, and a
-- server): GET, SET with PX, SET with PX and NX, and DEL, as an interface with their documented
-- laws. Each command takes the server's time. A key set with PX ttl at time t is there before
-- t + ttl. A Lua script runs as one command, so the relay's scripts are definitions over these.
pub mod Memory
use relay_cerebro_infra.Base.{
  ℕ, ◌+◌, Bool, true, false, Option, none, some, ◌≡◌, ltb, is_some, if◌then◌else◌,
}

pub record Redis (K V : Type 0) (key_eq : K → K → Bool) : Type 1 where
  pub Db : Type 0
  pub get : ℕ → K → Db → Option V
  pub set : ℕ → K → V → ℕ → Db → Db
  pub set_nx : ℕ → K → V → ℕ → Db → Db × Bool
  pub del : ℕ → K → Db → Db × Bool
  pub get-set :
      (t u : ℕ) (k j : K) (v : V) (ttl : ℕ) (db : Db)
      → get u j (set t k v ttl db)
        ≡ (if key_eq k j then (if ltb u (t + ttl) then some v else none) else get u j db)
  pub set_nx_lem :
      (t : ℕ) (k : K) (v : V) (ttl : ℕ) (db : Db)
      → set_nx t k v ttl db
        ≡ (if is_some (get t k db) then (db, false) else (set t k v ttl db, true))
  pub get-del :
      (t u : ℕ) (k j : K) (db : Db)
      → get u j (del t k db).0 ≡ (if key_eq k j then none else get u j db)
  pub del-found : (t : ℕ) (k : K) (db : Db) → (del t k db).1 ≡ is_some (get t k db)

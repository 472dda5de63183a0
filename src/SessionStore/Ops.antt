-- ===== src/SessionStore/Ops.antt =====
-- src/services/sessionStore.js: locks, and storing, reading, changing and finding a session.
use relay_cerebro_infra.Base.{
  ℕ, zero, suc, String, Bool, false, Option, none, some, List, [], ◌∷◌, ◌++◌, ltb, str_eq, truthy,
  or_null, if◌then◌else◌, ◌==◌,
}
use relay_cerebro_infra.Base.Text.{trim}
use relay_cerebro_infra.Redis.{Redis}
use relay_cerebro_infra.SessionStore.{
  Session, SessionData, Status, pending, Key, session, idx_ip, idx_mac, idx_pedido, Value, json, id,
  token, key_eq, lock_ttl_ms, lock_retry_ms, max_lock_retries, min_ttl_ms, parse_session,
  compute_session_ttl_ms,
}
use relay_cerebro_infra.SessionStore.Exec.{
  lock_timeout, M, ◌>>=◌, ◌>>◌, pure, raise, attempt, World, command, redis_get, redis_set,
  redis_set_nx, redis_del, now, sleep, random_token, random_uuid, all,
}

-- The fields that callers of `updateSession` pass; `none` where the object has no such key.
pub record Patch : Type 0 where
  pub ip : Option (Option String)
  pub mac : Option (Option String)
  pub router : Option (Option String)
  pub identity : Option (Option String)
  pub status : Option Status
  pub active : Option Bool

abbrev pub overridden {ℓ} : {A : Type ℓ} → A → Option A → A
overridden old none = old
overridden old (some new) = new

-- `{...existing, ...data, sessionId, createdAt, updatedAt}`.
unfoldable pub patched : Session → Patch → ℕ → Session
patched s p t = record s {
  ip = overridden s.ip p.ip;
  mac = overridden s.mac p.mac;
  router = overridden s.router p.router;
  identity = overridden s.identity p.identity;
  status = overridden s.status p.status;
  active = overridden s.active p.active;
  updated_at = t;
}

-- `String(s || "").trim() || u`.
id_or : Option String → String → String
unfolding trim
id_or none u = u
id_or (some s) u = if str_eq (trim s) "" then u else trim s

-- `n || null`, for a number.
abbrev positive : Option ℕ → Option ℕ
positive (some (suc n)) = some (suc n)
positive _ = none

-- `buildSession`, given the time and a fresh UUID.
unfoldable pub build_session : SessionData → ℕ → String → Session
unfolding id_or
build_session d t u = record {
  session_id = id_or d.session_id u;
  ip = or_null d.ip;
  mac = or_null d.mac;
  router = or_null d.router;
  identity = or_null d.identity;
  status = pending;
  created_at = t;
  updated_at = t;
  expires_at = positive d.expires_at;
  plan_id = or_null d.plan_id;
  pedido_id = or_null d.pedido_id;
  plano = or_null d.plano;
  active = d.active;
  last_mikrotik_result = none;
  authorized_at = none;
  revoked_at = none;
}

module _ (R : Redis Key Value key_eq) where
  -- The loop of `acquireLock`, with the attempts left.
  unfoldable pub lock_attempts : ℕ → Key → ℕ → M (World R) ℕ
  lock_attempts zero k t w = raise (lock_timeout k) w
  lock_attempts (suc n) k t w =
      (do
        acquired ← redis_set_nx R k (token t) lock_ttl_ms
        if acquired then pure t else (do sleep R lock_retry_ms; lock_attempts n k t))
        w

  unfoldable pub acquire_lock : Key → M (World R) ℕ
  acquire_lock k = do t ← random_token R; lock_attempts max_lock_retries k t

  abbrev pub holds_token : ℕ → Option Value → Bool
  holds_token t (some (token u)) = u == t
  holds_token t _ = false

  -- The Lua script: delete the key if it still holds this token.
  unfoldable pub delete_if_held : Key → ℕ → ℕ → R.Db → R.Db × Unit {0}
  delete_if_held k t time db =
      if holds_token t (R.get time k db) then ((R.del time k db).0, tt) else (db, tt)

  unfoldable pub release_lock : Key → ℕ → M (World R) (Unit {0})
  unfolding delete_if_held
  release_lock k t = attempt (command R (delete_if_held k t)) (pure tt)

  -- `persistSession`. A TTL of 0 gives the minimum.
  unfoldable pub persist_session : Session → ℕ → M (World R) ℕ
  persist_session s ttl = do
    redis_set R (session s.session_id) (json s) (if ltb 0 ttl then ttl else min_ttl_ms)
    pure ttl

  abbrev pub index_entry :
      (String → Key) → Option String → String → ℕ → List (M (World R) (Unit {0}))
  index_entry key none sid ttl = []
  index_entry key (some s) sid ttl =
      if truthy (some s) then redis_set R (key s) (id sid) ttl ∷ [] else []

  unfoldable pub persist_indices : Session → ℕ → M (World R) (Unit {0})
  persist_indices s ttl = all R (
      index_entry idx_ip s.ip s.session_id ttl
      ++ (index_entry idx_mac s.mac s.session_id ttl
          ++ index_entry idx_pedido s.pedido_id s.session_id ttl))

  unfoldable pub create_session : (ℕ → String) → SessionData → M (World R) Session
  create_session uuid d = do
    time ← now R
    u ← random_uuid R
    let s = build_session d time (uuid u)
    ttl ← persist_session s lock_ttl_ms
    persist_indices s ttl
    pure s

  unfoldable pub get_session : String → M (World R) (Option Session)
  get_session sid =
      attempt (do raw ← redis_get R (session sid); pure (parse_session raw)) (pure none)

  abbrev pub store_patched : Option Session → Patch → M (World R) (Option Session)
  store_patched none p = pure none
  store_patched (some existing) p = do
    time ← now R
    let updated = patched existing p time
    let ttl = compute_session_ttl_ms time updated
    _ ← persist_session updated ttl
    persist_indices updated ttl
    pure (some updated)

  unfoldable pub update_session : String → Patch → M (World R) (Option Session)
  update_session sid p = do existing ← get_session sid; store_patched existing p

  abbrev pub pointed : Option Value → Option String
  pointed (some (id sid)) = or_null (some sid)
  pointed _ = none

  -- An index that points to no session is deleted.
  abbrev pub clean_orphan : Key → Option Session → M (World R) (Option Session)
  clean_orphan k (some s) = pure (some s)
  clean_orphan k none = do _ ← redis_del R k; pure none

  abbrev pub follow : Key → Option String → M (World R) (Option Session)
  follow k none = pure none
  follow k (some sid) = do found ← get_session sid; clean_orphan k found

  -- The common body of `findByIp`, `findByMac` and `findByPedidoId` at the index's key.
  unfoldable pub find_by_key : Key → M (World R) (Option Session)
  unfolding get_session
  find_by_key k = attempt (do raw ← redis_get R k; follow k (pointed raw)) (pure none)

  abbrev pub find_by : (String → Key) → Option String → M (World R) (Option Session)
  find_by key none = pure none
  find_by key (some s) = if truthy (some s) then find_by_key (key s) else pure none

  unfoldable pub find_by_ip : Option String → M (World R) (Option Session)
  find_by_ip = find_by idx_ip

  unfoldable pub find_by_mac : Option String → M (World R) (Option Session)
  find_by_mac = find_by idx_mac

  unfoldable pub find_by_pedido_id : Option String → M (World R) (Option Session)
  find_by_pedido_id = find_by idx_pedido

  unfoldable pub delete_session : String → M (World R) Bool
  delete_session sid = attempt (redis_del R (session sid)) (pure false)

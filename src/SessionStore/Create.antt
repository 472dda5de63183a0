-- ===== src/SessionStore/Create.antt =====
-- src/services/sessionStore.js: `createSession`, and then the searches by index.
use relay_cerebro_infra.Base.{
  ℕ, suc, ◌+◌, ◌<◌, String, true, Option, none, some, ◌≡◌, refl, ap, ◌∙◌, lt→ltb, truthy, is_some,
  or_null, str_eq_refl, eq_iff, if◌then◌else◌, arith,
}
use relay_cerebro_infra.Redis.{Redis}
use relay_cerebro_infra.SessionStore.{
  Session, SessionData, Key, session, idx_ip, idx_mac, idx_pedido, Value, json, key_eq, lock_ttl_ms,
}
use relay_cerebro_infra.SessionStore.Exec.{ok, ◌>>◌, and_then, pure, World}
use relay_cerebro_infra.SessionStore.Ops.{
  build_session, create_session, persist_session, persist_indices, find_by, find_by_key, find_by_ip,
  find_by_mac, find_by_pedido_id,
}
use relay_cerebro_infra.SessionStore.Indices.{Frames-persist_indices, Returns-persist_indices}
use relay_cerebro_infra.SessionStore.Locks.{quiet}
use relay_cerebro_infra.SessionStore.WithLock.{and_then_ok}
use relay_cerebro_infra.SessionStore.Find.{
  Points, persist_indices-ip, persist_indices-mac, persist_indices-pedido, find_by_key-stored,
}

or_null-truthy : (o : Option String) (a : String) → or_null o ≡ some a → truthy (some a) ≡ true
or_null-truthy none a e = cc
or_null-truthy (some b) a e = ground (arith, eq_iff a "", eq_iff b "")

module _ (R : Redis Key Value key_eq) (uuid : ℕ → String) (d : SessionData) where
  -- The session that `createSession` builds.
  abbrev pub built : World R → Session
  built w = build_session d w.clock (uuid w.uuids)

  abbrev pub stored : World R → World R
  stored w = record (quiet R w) {
    uuids = suc w.uuids;
    db = R.set w.clock (session (built w).session_id) (json (built w)) lock_ttl_ms w.db;
  }

  pub create_session_runs :
      (w : World R)
      → create_session R uuid d (quiet R w)
        ≡ and_then (persist_indices R (built w) lock_ttl_ms (stored w)) (λ _ x. (ok (built w), x))
  unfolding create_session persist_session ◌>>◌
  create_session_runs w = refl

  ip_given : (w : World R) (a : String) → (built w).ip ≡ some a → truthy (some a) ≡ true
  unfolding build_session
  ip_given w a e = or_null-truthy d.ip a e

  mac_given : (w : World R) (a : String) → (built w).mac ≡ some a → truthy (some a) ≡ true
  unfolding build_session
  mac_given w a e = or_null-truthy d.mac a e

  pedido_given : (w : World R) (a : String) → (built w).pedido_id ≡ some a → truthy (some a) ≡ true
  unfolding build_session
  pedido_given w a e = or_null-truthy d.pedido_id a e

  -- The world after the call, at a later time.
  abbrev pub later : World R → ℕ → World R
  later w u = record (quiet R (create_session R uuid d (quiet R w)).1) { clock = u }

  -- While Redis serves every command, `createSession` returns the session that it builds from its
  -- argument, the time and a fresh UUID. For two minutes from then, with nothing else
  -- stored in between, the searches by IP, by MAC and by order find it, unchanged, where it has one,
  -- and find nothing where it has none.
  pub create_session-found :
      (w : World R) (u : ℕ)
      → truthy (some (built w).session_id) ≡ true
      → u < w.clock + lock_ttl_ms
      → ((create_session R uuid d (quiet R w)).0 ≡ ok (built w))
        × (find_by_ip R (built w).ip (later w u)
            ≡ (ok (if is_some (built w).ip then some (built w) else none), later w u))
        × (find_by_mac R (built w).mac (later w u)
            ≡ (ok (if is_some (built w).mac then some (built w) else none), later w u))
        × (find_by_pedido_id R (built w).pedido_id (later w u)
            ≡ (ok (if is_some (built w).pedido_id then some (built w) else none), later w u))
  unfolding find_by_ip find_by_mac find_by_pedido_id pure
  create_session-found w u named early = (
    ap (λ r. r.0) run,
    either idx_ip g.ip
        (λ a e. (ip_given w a e, persist_indices-ip R g lock_ttl_ms x refl a (ip_given w a e) e)),
    either idx_mac g.mac (λ a e.
        (mac_given w a e, persist_indices-mac R g lock_ttl_ms x refl a (mac_given w a e) e)),
    either idx_pedido g.pedido_id (λ a e. (
      pedido_given w a e,
      persist_indices-pedido R g lock_ttl_ms x refl a (pedido_given w a e) e,
    )),
  )
    where
      g : Session
      g = built w

      x : World R
      x = stored w

      run : create_session R uuid d (quiet R w) ≡ (ok g, (persist_indices R g lock_ttl_ms x).1)
      run =
          create_session_runs w
          ∙ and_then_ok (persist_indices R g lock_ttl_ms x) tt (λ _ y. (ok g, y))
              ((Returns-persist_indices R g lock_ttl_ms).fine x refl)

      there : R.get u (session g.session_id) (later w u).db ≡ some (json g)
      there =
          ap (λ r. R.get u (session g.session_id) r.1.db) run
          ∙ ((Frames-persist_indices R (session g.session_id) g lock_ttl_ms refl).at x).same u
          ∙ rw (
            R.get-set w.clock u (session g.session_id) (session g.session_id) (json g) lock_ttl_ms
                w.db,
            str_eq_refl g.session_id,
            lt→ltb u (w.clock + lock_ttl_ms) early,
          )

      by :
          (k : Key)
          → Points R k g lock_ttl_ms x
          → find_by_key R k (later w u) ≡ (ok (some g), later w u)
      by k points =
          find_by_key-stored R k (later w u) g named
            (ap (λ r. R.get u k r.1.db) run
              ∙ points u
              ∙ rw (lt→ltb u (w.clock + lock_ttl_ms) early))
            there

      either :
          (key : String → Key) (o : Option String)
          → ((a : String)
              → o ≡ some a
              → (truthy (some a) ≡ true) × Points R (key a) g lock_ttl_ms x)
          → find_by R key o (later w u) ≡ (ok (if is_some o then some g else none), later w u)
      either key none h = refl
      either key (some a) h = rw (h a refl).0 (by (key a) (h a refl).1)

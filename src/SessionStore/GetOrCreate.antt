-- ===== src/SessionStore/GetOrCreate.antt =====
-- src/services/sessionStore.js: `getOrCreateSession` for a client that no index knows, and for an
-- order that is known.
use relay_cerebro_infra.Base.{
  ℕ, String, true, false, Option, none, some, ◌≡◌, refl, ap, ◌∙◌, truthy, arith, inl, inr,
  Bool-cases,
}
use relay_cerebro_infra.Redis.{Redis}
use relay_cerebro_infra.SessionStore.{
  Session, Key, session, idx_ip, idx_mac, idx_pedido, lock_create, Value, json, id, token, key_eq,
  lock_ttl_ms, compute_session_ttl_ms, parse_session,
}
use relay_cerebro_infra.SessionStore.Exec.{Result, ok, ◌>>=◌, ◌>>◌, and_then, pure, World}
use relay_cerebro_infra.SessionStore.Ops.{
  build_session, create_session, persist_session, persist_indices, get_session, find_by,
  find_by_key, find_by_ip, find_by_mac, find_by_pedido_id, update_session, patched,
}
use relay_cerebro_infra.SessionStore.Lifecycle.{
  Request, fingerprint, by_pedido_patch, new_session_data, create_locked, get_or_create_session,
  with_lock, reuse,
}
use relay_cerebro_infra.SessionStore.Frame.{Frames, Frames-release_lock}
use relay_cerebro_infra.SessionStore.Indices.{Every-append, Frames-Every, Returns-persist_indices}
use relay_cerebro_infra.SessionStore.Locks.{quiet}
use relay_cerebro_infra.SessionStore.WithLock.{locked, with_lock_free, and_then_ok}
use relay_cerebro_infra.SessionStore.Find.{spares, find_by_key-stored}
use relay_cerebro_infra.SessionStore.Create.{built, stored, create_session_runs}
use relay_cerebro_infra.SessionStore.Ttl.{compute_session_ttl_ms-pos}

module _ (R : Redis Key Value key_eq) where
  -- No index of this kind is set for the value, if there is one.
  abbrev pub Unset : (String → Key) → Option String → World R → Type 0
  Unset key none w = Unit {0}
  Unset key (some a) w = R.get w.clock (key a) w.db ≡ none

  -- No index knows the client.
  pub record Unknown (q : Request) (w : World R) : Type 0 where
    pub pedido : Unset idx_pedido q.pedido_id w
    pub mac : Unset idx_mac q.mac w
    pub ip : Unset idx_ip q.ip w

  find_by_key-unset :
      (k : Key) (w : World R)
      → R.get w.clock k w.db ≡ none
      → find_by_key R k (quiet R w) ≡ (ok none, quiet R w)
  unfolding find_by_key ◌>>◌
  find_by_key-unset k w unset = rw unset

  find_by-Unset :
      (key : String → Key) (o : Option String) (w : World R)
      → Unset key o w
      → find_by R key o (quiet R w) ≡ (ok none, quiet R w)
  unfolding ◌>>◌
  find_by-Unset key none w unset = refl
  find_by-Unset key (some a) w unset = elim (Bool-cases (truthy (some a))) [
    | inl e ↦ rw e (find_by_key-unset (key a) w unset)
    | inr e ↦ rw e
  ]

  locked-Unset :
      (key : String → Key) (o : Option String) (k : String) (w : World R)
      → ((a : String) → key_eq (lock_create k) (key a) ≡ false)
      → Unset key o w
      → Unset key o (locked R (lock_create k) w)
  locked-Unset key none k w other n = tt
  locked-Unset key (some a) k w other n =
      rw
        (
          R.get-set w.clock w.clock (lock_create k) (key a) (token w.tokens) lock_ttl_ms w.db,
          other a,
        )
        n

  locked-Unknown :
      (q : Request) (k : String) (w : World R)
      → Unknown q w
      → Unknown q (locked R (lock_create k) w)
  locked-Unknown q k w n = record {
    pedido = locked-Unset idx_pedido q.pedido_id k w (λ a. refl) n.pedido;
    mac = locked-Unset idx_mac q.mac k w (λ a. refl) n.mac;
    ip = locked-Unset idx_ip q.ip k w (λ a. refl) n.ip;
  }

  create_locked-creates :
      (uuid : ℕ → String) (q : Request) (w : World R)
      → Unknown q w
      → create_locked R uuid q (quiet R w) ≡ create_session R uuid (new_session_data q) (quiet R w)
  unfolding create_locked find_by_pedido_id find_by_mac ◌>>◌
  create_locked-creates uuid q w n =
      rw (find_by-Unset idx_pedido q.pedido_id w n.pedido, find_by-Unset idx_mac q.mac w n.mac)

  get_or_create-locks :
      (uuid : ℕ → String) (q : Request) (w : World R)
      → Unknown q w
      → get_or_create_session R uuid q (quiet R w)
        ≡ with_lock R (lock_create (fingerprint q)) (create_locked R uuid q) (quiet R w)
  unfolding get_or_create_session find_by_pedido_id find_by_mac find_by_ip ◌>>◌
  get_or_create-locks uuid q w n = rw (
    find_by-Unset idx_pedido q.pedido_id w n.pedido,
    find_by-Unset idx_mac q.mac w n.mac,
    find_by-Unset idx_ip q.ip w n.ip,
  )

  -- With no order, `persistIndices` leaves every order's index alone.
  Frames-no_pedido :
      (p : String) (s : Session) (ttl : ℕ)
      → s.pedido_id ≡ none
      → Frames R (idx_pedido p) (persist_indices R s ttl)
  unfolding persist_indices
  Frames-no_pedido p s ttl e = rw e (
      Frames-Every R (idx_pedido p) _ (
        Every-append R _ _ _ (spares R _ idx_ip s.ip _ _ (λ b. refl))
          (Every-append R _ _ _ (spares R _ idx_mac s.mac _ _ (λ b. refl)) tt)))

  -- While Redis serves every command and the creation lock is free: for a client that no index
  -- knows, `getOrCreateSession` returns a new session that has no order, whatever order the call
  -- gives, and the index of every order reads as before at every time. So the order is forgotten.
  pub get_or_create-forgets_pedido :
      (uuid : ℕ → String) (q : Request) (w : World R)
      → Unknown q w
      → R.get w.clock (lock_create (fingerprint q)) w.db ≡ none
      → let r = get_or_create_session R uuid q (quiet R w) in
        (r.0 ≡ ok (built R uuid (new_session_data q) w))
        × ((built R uuid (new_session_data q) w).pedido_id ≡ none)
        × ((p : String) (u : ℕ) → R.get u (idx_pedido p) r.1.db ≡ R.get u (idx_pedido p) w.db)
  unfolding build_session
  get_or_create-forgets_pedido uuid q w n free =
      let d = new_session_data q in
      let k = lock_create (fingerprint q) in
      let v = locked R k w in
      let g = built R uuid d v in
      let x = stored R uuid d v in
      let run =
        get_or_create-locks uuid q w n ∙ with_lock_free R k (create_locked R uuid q) w free in
      let inner =
        create_locked-creates uuid q v (locked-Unknown q (fingerprint q) w n)
        ∙ create_session_runs R uuid d v
        ∙ and_then_ok (persist_indices R g lock_ttl_ms x) tt (λ _ y. (ok g, y))
            ((Returns-persist_indices R g lock_ttl_ms).fine x refl) in
      let after : World R = (create_locked R uuid q v).1 in
      (
        ap (λ r. r.0) run ∙ ap (λ r. r.0) inner,
        refl,
        λ p u.
            ap (λ r. R.get u (idx_pedido p) r.1.db) run
            ∙ ((Frames-release_lock R (idx_pedido p) k w.tokens refl).at after).same u
            ∙ ap (λ r. R.get u (idx_pedido p) r.1.db) inner
            ∙ ((Frames-no_pedido p g lock_ttl_ms refl).at x).same u
            ∙ rw
                (R.get-set v.clock u (session g.session_id) (idx_pedido p) (json g) lock_ttl_ms
                  v.db)
                (rw (R.get-set w.clock u k (idx_pedido p) (token w.tokens) lock_ttl_ms w.db)),
      )

  update_session-result :
      (w : World R) (s : Session) (q : Request)
      → R.get w.clock (session s.session_id) w.db ≡ some (json s)
      → (update_session R s.session_id (by_pedido_patch q) (quiet R w)).0
        ≡ ok (some (patched s (by_pedido_patch q) w.clock))
  unfolding update_session get_session parse_session persist_session ◌>>◌
  update_session-result w s q found =
      let g = patched s (by_pedido_patch q) w.clock in
      let ttl = compute_session_ttl_ms w.clock g in
      let x : World R = record (quiet R w) {
        db = R.set w.clock (session g.session_id) (json g) ttl w.db;
      } in
      rw (found, compute_session_ttl_ms-pos w.clock g)
        (ap (λ r. r.0)
          (and_then_ok {B = Option Session} (persist_indices R g ttl x) tt (λ _ y. (ok (some g), y))
            ((Returns-persist_indices R g ttl).fine x refl)))

  returned_reuse :
      (r : Result (Option Session) × World R) (g : Session)
      → r.0 ≡ ok (some g)
      → (and_then r (reuse R)).0 ≡ ok g
  unfolding pure
  returned_reuse r g e = ground arith

  -- While Redis serves every command: for an order whose index points to a stored session,
  -- `getOrCreateSession` returns that session. Its state, plan, order and expiry are as stored. Its
  -- IP, MAC, router and identity are those of the call, also where the call has none.
  pub get_or_create-reuses_pedido :
      (uuid : ℕ → String) (q : Request) (w : World R) (p : String) (s : Session)
      → q.pedido_id ≡ some p
      → truthy (some p) ≡ true
      → R.get w.clock (idx_pedido p) w.db ≡ some (id s.session_id)
      → truthy (some s.session_id) ≡ true
      → R.get w.clock (session s.session_id) w.db ≡ some (json s)
      → (get_or_create_session R uuid q (quiet R w)).0
        ≡ ok (record s {
          ip = q.ip;
          mac = q.mac;
          router = q.router;
          identity = q.identity;
          updated_at = w.clock;
        })
  unfolding get_or_create_session find_by_pedido_id patched ◌>>=◌
  get_or_create-reuses_pedido uuid q w p s asked given points named found =
      rw (asked, given, find_by_key-stored R (idx_pedido p) w s named points found)
        (returned_reuse (update_session R s.session_id (by_pedido_patch q) (quiet R w)) _
          (update_session-result w s q found))

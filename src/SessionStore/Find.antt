-- ===== src/SessionStore/Find.antt =====
-- src/services/sessionStore.js: what `persistIndices` leaves under each index, and what a search by
-- an index finds.
use relay_cerebro_infra.Base.{
  ℕ, ◌+◌, String, true, false, Option, none, some, ◌≡◌, refl, sym, ap, subst, ◌∙◌, List, [], ◌∷◌,
  ◌++◌, ltb, truthy, str_eq_refl, if◌then◌else◌,
}
use mathlib.Core.List.{append-nil, append_assoc}
use relay_cerebro_infra.Redis.{Redis}
use relay_cerebro_infra.SessionStore.{
  Session, Key, session, idx_ip, idx_mac, idx_pedido, Value, json, id, key_eq, parse_session,
}
use relay_cerebro_infra.SessionStore.Exec.{ok, M, ◌>>◌, World, all, redis_set, command}
use relay_cerebro_infra.SessionStore.Ops.{index_entry, persist_indices, find_by_key}
use relay_cerebro_infra.SessionStore.Frame.{Frames, Frames-set}
use relay_cerebro_infra.SessionStore.Indices.{
  Every, Every-append, Every-index_entry, Frames-Every, Returns, Returns-set, Returns-Every,
}
use relay_cerebro_infra.SessionStore.Locks.{quiet}
use relay_cerebro_infra.SessionStore.WithLock.{quiet-eq}

module _ (R : Redis Key Value key_eq) where
  all-append :
      (ms ns : List (M (World R) (Unit {0}))) (w : World R)
      → (all R (ms ++ ns) w).1 ≡ (all R ns (all R ms w).1).1
  unfolding all
  all-append [] ns w = refl
  all-append (m ∷ ms) ns w = all-append ms ns (m w).1

  -- After the commands `before`, an index's own and `after`, the index points to the session, if
  -- the others leave its key alone.
  pub entry_stored :
      (before after : List (M (World R) (Unit {0}))) (key : String → Key) (a sid : String)
      (ttl u : ℕ) (w : World R)
      → w.faults ≡ []
      → truthy (some a) ≡ true
      → key_eq (key a) (key a) ≡ true
      → Every R (Frames R (key a)) before
      → Every R (Returns R) before
      → Every R (Frames R (key a)) after
      → R.get u (key a) (all R (before ++ (index_entry R key (some a) sid ttl ++ after)) w).1.db
        ≡ (if ltb u (w.clock + ttl) then some (id sid) else none)
  unfolding all command
  entry_stored before after key a sid ttl u w calm given self fb rb fa =
      let v = (all R before w).1 in
      let time : v.clock ≡ w.clock = ((Frames-Every R (key a) before fb).at w).time in
      let still : v.faults ≡ [] = (Returns-Every R before rb).calm w calm in
      let x : World R = (redis_set R (key a) (id sid) ttl v).1 in
      ap (λ y. R.get u (key a) y.db) (all-append before _ w)
      ∙ rw given (
          ((Frames-Every R (key a) after fa).at x).same u
          ∙ subst
              (λ y.
                R.get u (key a) (redis_set R (key a) (id sid) ttl y).1.db
                ≡ (if ltb u (w.clock + ttl) then some (id sid) else none))
              (sym (quiet-eq R v still))
              (rw (R.get-set v.clock u (key a) (key a) (id sid) ttl v.db, self, time) refl))

  -- The index of each kind of key, after `persistIndices`.
  abbrev pub Points : Key → Session → ℕ → World R → Type 0
  Points k s ttl w =
      (u : ℕ)
      → R.get u k (persist_indices R s ttl w).1.db
        ≡ (if ltb u (w.clock + ttl) then some (id s.session_id) else none)

  -- The commands for one index leave the keys of another kind alone, and return.
  pub spares :
      (k : Key) (key : String → Key) (o : Option String) (sid : String) (ttl : ℕ)
      → ((b : String) → key_eq (key b) k ≡ false)
      → Every R (Frames R k) (index_entry R key o sid ttl)
  spares k key o sid ttl other =
      Every-index_entry R _ key o sid ttl (λ b. Frames-set R k _ _ _ (other b))

  pub returns :
      (key : String → Key) (o : Option String) (sid : String) (ttl : ℕ)
      → Every R (Returns R) (index_entry R key o sid ttl)
  returns key o sid ttl = Every-index_entry R _ key o sid ttl (λ b. Returns-set R _ _ _)

  module _ (s : Session) (ttl : ℕ) (w : World R) (calm : w.faults ≡ []) (a : String)
      (given : truthy (some a) ≡ true) where
    abbrev entries : (String → Key) → Option String → List (M (World R) (Unit {0}))
    entries key o = index_entry R key o s.session_id ttl

    pub persist_indices-ip : s.ip ≡ some a → Points (idx_ip a) s ttl w
    unfolding persist_indices
    persist_indices-ip e u =
        subst
          (λ o.
            R.get u (idx_ip a)
              (all R (entries idx_ip o ++ (entries idx_mac s.mac ++ entries idx_pedido s.pedido_id))
                w).1.db
            ≡ (if ltb u (w.clock + ttl) then some (id s.session_id) else none))
          (sym e)
          (entry_stored [] (entries idx_mac s.mac ++ entries idx_pedido s.pedido_id) idx_ip a
            s.session_id ttl u w calm given (str_eq_refl a) tt tt
            (Every-append R _ _ _ (spares _ idx_mac s.mac _ _ (λ b. refl))
              (spares _ idx_pedido s.pedido_id _ _ (λ b. refl))))

    pub persist_indices-mac : s.mac ≡ some a → Points (idx_mac a) s ttl w
    unfolding persist_indices
    persist_indices-mac e u =
        subst
          (λ o.
            R.get u (idx_mac a)
              (all R (entries idx_ip s.ip ++ (entries idx_mac o ++ entries idx_pedido s.pedido_id))
                w).1.db
            ≡ (if ltb u (w.clock + ttl) then some (id s.session_id) else none))
          (sym e)
          (entry_stored (entries idx_ip s.ip) (entries idx_pedido s.pedido_id) idx_mac a
            s.session_id ttl u w calm given (str_eq_refl a) (spares _ idx_ip s.ip _ _ (λ b. refl))
            (returns idx_ip s.ip _ _) (spares _ idx_pedido s.pedido_id _ _ (λ b. refl)))

    pub persist_indices-pedido : s.pedido_id ≡ some a → Points (idx_pedido a) s ttl w
    unfolding persist_indices
    persist_indices-pedido e u =
        subst
          (λ o.
            R.get u (idx_pedido a)
              (all R (entries idx_ip s.ip ++ (entries idx_mac s.mac ++ entries idx_pedido o))
                w).1.db
            ≡ (if ltb u (w.clock + ttl) then some (id s.session_id) else none))
          (sym e)
          (ap (λ l. R.get u (idx_pedido a) (all R l w).1.db) regroup
            ∙ entry_stored (entries idx_ip s.ip ++ entries idx_mac s.mac) [] idx_pedido a
                s.session_id ttl u w calm given (str_eq_refl a)
                (Every-append R _ _ _ (spares _ idx_ip s.ip _ _ (λ b. refl))
                  (spares _ idx_mac s.mac _ _ (λ b. refl)))
                (Every-append R _ _ _ (returns idx_ip s.ip _ _) (returns idx_mac s.mac _ _)) tt)
      where
        regroup :
            entries idx_ip s.ip ++ (entries idx_mac s.mac ++ entries idx_pedido (some a))
            ≡ (entries idx_ip s.ip ++ entries idx_mac s.mac) ++ (entries idx_pedido (some a) ++ [])
        regroup = rw (append-nil (entries idx_pedido (some a))) (
            sym (
              append_assoc (entries idx_ip s.ip) (entries idx_mac s.mac)
                (entries idx_pedido (some a))))

  -- An index that points to a stored session finds it and changes nothing.
  pub find_by_key-stored :
      (k : Key) (w : World R) (s : Session)
      → truthy (some s.session_id) ≡ true
      → R.get w.clock k w.db ≡ some (id s.session_id)
      → R.get w.clock (session s.session_id) w.db ≡ some (json s)
      → find_by_key R k (quiet R w) ≡ (ok (some s), quiet R w)
  unfolding find_by_key parse_session ◌>>◌
  find_by_key-stored k w s given points found = rw (points, given, found)

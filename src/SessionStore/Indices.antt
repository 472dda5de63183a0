-- ===== src/SessionStore/Indices.antt =====
-- src/services/sessionStore.js: the commands of `persistIndices`, run one by one.
use relay_cerebro_infra.Base.{
  ℕ, String, Bool, true, false, Option, none, some, ◌≡◌, refl, ◌∙◌, List, [], ◌∷◌, ◌++◌, inl, inr,
  truthy, Bool-cases,
}
use relay_cerebro_infra.Redis.{Redis}
use relay_cerebro_infra.SessionStore.{
  Session, Key, session, idx_ip, idx_mac, idx_pedido, lock_authorize, lock_revoke, lock_create,
  Value, id, key_eq,
}
use relay_cerebro_infra.SessionStore.Exec.{ok, M, command, World, all, redis_set}
use relay_cerebro_infra.SessionStore.Ops.{index_entry, persist_indices}
use relay_cerebro_infra.SessionStore.Locks.{is_lock}
use relay_cerebro_infra.SessionStore.Frame.{Frames, Frames-set, Frames-all, Frames-all_nil}

abbrev pub is_index : Key → Bool
is_index (idx_ip a) = true
is_index (idx_mac a) = true
is_index (idx_pedido a) = true
is_index _ = false

pub ip_not : (k : Key) (a : String) → is_index k ≡ false → key_eq (idx_ip a) k ≡ false
ip_not (idx_ip b) a h = cc
ip_not _ a h = refl

pub mac_not : (k : Key) (a : String) → is_index k ≡ false → key_eq (idx_mac a) k ≡ false
mac_not (idx_mac b) a h = cc
mac_not _ a h = refl

pub pedido_not : (k : Key) (a : String) → is_index k ≡ false → key_eq (idx_pedido a) k ≡ false
pedido_not (idx_pedido b) a h = cc
pedido_not _ a h = refl

pub index_not : (k : Key) → is_lock k ≡ true → is_index k ≡ false
index_not (session b) h = refl
index_not (lock_authorize b) h = refl
index_not (lock_revoke b) h = refl
index_not (lock_create b) h = refl
index_not _ h = cc

module _ (R : Redis Key Value key_eq) where
  abbrev pub Commands : Type 0
  Commands = List (M (World R) (Unit {0}))

  -- Every command of a list has a property.
  abbrev pub Every : (M (World R) (Unit {0}) → Type 0) → Commands → Type 0
  Every P [] = Unit {0}
  Every P (m ∷ ms) = P m × Every P ms

  pub Every-append :
      (P : M (World R) (Unit {0}) → Type 0) (ms ns : Commands)
      → Every P ms
      → Every P ns
      → Every P (ms ++ ns)
  Every-append P [] ns h g = g
  Every-append P (m ∷ ms) ns h g = (h.0, Every-append P ms ns h.1 g)

  pub Every-index_entry :
      (P : M (World R) (Unit {0}) → Type 0) (key : String → Key) (o : Option String) (sid : String)
      (ttl : ℕ)
      → ((a : String) → P (redis_set R (key a) (id sid) ttl))
      → Every P (index_entry R key o sid ttl)
  Every-index_entry P key none sid ttl h = tt
  Every-index_entry P key (some a) sid ttl h = elim (Bool-cases (truthy (some a))) [
    | inl e ↦ rw e (h a, tt)
    | inr e ↦ rw e tt
  ]

  pub Frames-Every : (k : Key) (ms : Commands) → Every (Frames R k) ms → Frames R k (all R ms)
  Frames-Every k [] h = Frames-all_nil R k
  Frames-Every k (m ∷ ms) h = Frames-all R k m ms h.0 (Frames-Every k ms h.1)

  pub Frames-persist_indices :
      (k : Key) (s : Session) (ttl : ℕ) → is_index k ≡ false → Frames R k (persist_indices R s ttl)
  unfolding persist_indices
  Frames-persist_indices k s ttl h = Frames-Every k _ (
      Every-append _ _ _
        (Every-index_entry _ idx_ip s.ip s.session_id ttl
          (λ a. Frames-set R k _ _ _ (ip_not k a h)))
        (Every-append _ _ _
          (Every-index_entry _ idx_mac s.mac s.session_id ttl
            (λ a. Frames-set R k _ _ _ (mac_not k a h)))
          (Every-index_entry _ idx_pedido s.pedido_id s.session_id ttl
            (λ a. Frames-set R k _ _ _ (pedido_not k a h)))))

  -- While every command is served, `m` returns and calls no router.
  pub record Returns (m : M (World R) (Unit {0})) : Type 0 where
    pub fine : (w : World R) → w.faults ≡ [] → (m w).0 ≡ ok tt
    pub calm : (w : World R) → w.faults ≡ [] → (m w).1.faults ≡ []
    pub calls : (w : World R) → w.faults ≡ [] → (m w).1.calls ≡ w.calls

  pub Returns-set : (k : Key) (v : Value) (ttl : ℕ) → Returns (redis_set R k v ttl)
  unfolding command
  Returns-set k v ttl = record { fine = λ w e. simp e; calm = λ w e. simp e; calls = λ w e. simp e }

  pub Returns-Every : (ms : Commands) → Every Returns ms → Returns (all R ms)
  unfolding all
  Returns-Every [] h = record { fine = λ w e. refl; calm = λ w e. e; calls = λ w e. refl }
  Returns-Every (m ∷ ms) h = record {
    fine = λ w e. rw (h.0.fine w e) ((Returns-Every ms h.1).fine (m w).1 (h.0.calm w e));
    calm = λ w e. (Returns-Every ms h.1).calm (m w).1 (h.0.calm w e);
    calls = λ w e. (Returns-Every ms h.1).calls (m w).1 (h.0.calm w e) ∙ h.0.calls w e;
  }

  pub Returns-persist_indices : (s : Session) (ttl : ℕ) → Returns (persist_indices R s ttl)
  unfolding persist_indices
  Returns-persist_indices s ttl = Returns-Every _ (
      Every-append _ _ _ (Every-index_entry _ idx_ip s.ip s.session_id ttl (λ a. Returns-set _ _ _))
        (Every-append _ _ _
          (Every-index_entry _ idx_mac s.mac s.session_id ttl (λ a. Returns-set _ _ _))
          (Every-index_entry _ idx_pedido s.pedido_id s.session_id ttl (λ a. Returns-set _ _ _))))

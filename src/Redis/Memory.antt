-- ===== src/Redis/Memory.antt =====
-- A Redis held in memory: the interface of Redis.antt can be met, and the tests run on this one.
-- An entry is a key, its value and the time at which it is gone.
use relay_cerebro_infra.Base.{
  ℕ, ◌+◌, Bool, true, false, Option, none, some, ◌≡◌, refl, ◌↔◌, List, [], ◌∷◌, ltb, is_some,
  if◌then◌else◌, arith,
}
use relay_cerebro_infra.Redis.{Redis}

module _ {K V : Type 0} (key_eq : K → K → Bool) where
  unfoldable pub get : ℕ → K → List (K × V × ℕ) → Option V
  get t k [] = none
  get t k ((j, v, gone) ∷ m) =
      if key_eq j k then (if ltb t gone then some v else none) else get t k m

  unfoldable pub drop_key : K → List (K × V × ℕ) → List (K × V × ℕ)
  drop_key k [] = []
  drop_key k ((j, v, gone) ∷ m) =
      let rest = drop_key k m in if key_eq j k then rest else (j, v, gone) ∷ rest

  unfoldable pub set : ℕ → K → V → ℕ → List (K × V × ℕ) → List (K × V × ℕ)
  set t k v ttl m = (k, v, t + ttl) ∷ m

  unfoldable pub set_nx : ℕ → K → V → ℕ → List (K × V × ℕ) → List (K × V × ℕ) × Bool
  unfolding get set
  set_nx t k v ttl m = if is_some (get t k m) then (m, false) else (set t k v ttl m, true)

  unfoldable pub del : ℕ → K → List (K × V × ℕ) → List (K × V × ℕ) × Bool
  unfolding get drop_key
  del t k m = (drop_key k m, is_some (get t k m))

  pub get-set :
      (t u : ℕ) (k j : K) (v : V) (ttl : ℕ) (m : List (K × V × ℕ))
      → get u j (set t k v ttl m)
        ≡ (if key_eq k j then (if ltb u (t + ttl) then some v else none) else get u j m)
  unfolding get set
  get-set t u k j v ttl m = refl

  pub set_nx_lem :
      (t : ℕ) (k : K) (v : V) (ttl : ℕ) (m : List (K × V × ℕ))
      → set_nx t k v ttl m ≡ (if is_some (get t k m) then (m, false) else (set t k v ttl m, true))
  unfolding set_nx
  set_nx_lem t k v ttl m = refl

  module _ (key_eq_iff : (a b : K) → (key_eq a b ≡ true) ↔ (a ≡ b)) where
    get-drop_key :
        (u : ℕ) (k j : K) (m : List (K × V × ℕ))
        → get u j (drop_key k m) ≡ (if key_eq k j then none else get u j m)
    unfolding get drop_key
    get-drop_key u k j [] = ground arith
    get-drop_key u k j ((i, v, gone) ∷ m) =
        ground (arith, key_eq_iff k j, key_eq_iff i k, key_eq_iff i j, get-drop_key u k j m)

    pub get-del :
        (t u : ℕ) (k j : K) (m : List (K × V × ℕ))
        → get u j (del t k m).0 ≡ (if key_eq k j then none else get u j m)
    unfolding del
    get-del t u k j m = get-drop_key u k j m

    pub del-found : (t : ℕ) (k : K) (m : List (K × V × ℕ)) → (del t k m).1 ≡ is_some (get t k m)
    unfolding del
    del-found t k m = refl

    abbrev pub memory : Redis K V key_eq
    memory = record {
      Db = List (K × V × ℕ);
      get = get;
      set = set;
      set_nx = set_nx;
      del = del;
      get-set = get-set;
      set_nx_lem = set_nx_lem;
      get-del = get-del;
      del-found = del-found;
    }

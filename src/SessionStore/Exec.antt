-- ===== src/SessionStore/Exec.antt =====
-- src/services/sessionStore.js: the state that an operation runs in, exceptions, Redis commands
-- that may fail, the clock and random values.
use relay_cerebro_infra.Base.{ℕ, suc, ◌+◌, String, Bool, Option, List, [], ◌∷◌, ◌++◌}
use relay_cerebro_infra.Redis.{Redis}
use relay_cerebro_infra.SessionStore.{Status, Key, Value, key_eq}

pub data Error : Type 0 where
  lock_timeout : Key → Error
  redis_down : Error
  session_not_found : String → Error
  invalid_transition : Status → Status → Error
  mikrotik_failed mikrotik_exception : Error
  missing_argument : Error
  type_error : Error

pub data Result {ℓ} (A : Type ℓ) : Type ℓ where
  ok : A → Result A
  err : Error → Result A

-- An operation over a state `S`, which throws or returns and leaves a state either way.
abbrev pub M : Type 0 → Type 0 → Type 0
M S A = S → Result A × S

abbrev pub and_then {ℓ κ} :
    {S : Type 0} {A : Type ℓ} {B : Type κ} → Result A × S → (A → S → Result B × S) → Result B × S
and_then (ok a, s) f = f a s
and_then (err e, s) f = (err e, s)

abbrev pub or_else {ℓ} :
    {S : Type 0} {A : Type ℓ} → Result A × S → (Error → S → Result A × S) → Result A × S
or_else (ok a, s) h = (ok a, s)
or_else (err e, s) h = h e s

unfoldable pub pure : {S A : Type 0} → A → M S A
pure a s = (ok a, s)

unfoldable pub raise : {S A : Type 0} → Error → M S A
raise e s = (err e, s)

-- `try { m } catch { h }`.
unfoldable pub attempt : {S A : Type 0} → M S A → M S A → M S A
attempt m h s = or_else (m s) (λ _. h)

-- `try { m } finally { cleanup }`, for a cleanup that never throws.
unfoldable pub finally : {S A : Type 0} → M S A → M S (Unit {0}) → M S A
finally m cleanup s = let (r, t) = m s in (r, (cleanup t).1)

-- The fate of a command: Redis answers, the command never reaches Redis, or it is carried out and
-- the connection breaks before the answer.
pub data Fault : Type 0 where
  served refused reply_lost : Fault

pub data RouterCall : Type 0 where
  add_binding remove_binding : String → RouterCall

-- `faults` is the fate of the coming commands; once it is used up, all are served. `tokens` and
-- `uuids` count the random values drawn, which are taken to be distinct.
pub record World (R : Redis Key Value key_eq) : Type 0 where
  pub db : R.Db
  pub clock : ℕ
  pub tokens : ℕ
  pub uuids : ℕ
  pub faults : List Fault
  pub calls : List RouterCall

module _ (R : Redis Key Value key_eq) where
  abbrev pub carry_out : {A : Type 0} → (ℕ → R.Db → R.Db × A) → World R → A × World R
  carry_out f w = let (db, a) = f w.clock w.db in (a, record w { db = db })

  abbrev pub fate : {A : Type 0} → List Fault → (ℕ → R.Db → R.Db × A) → M (World R) A
  fate [] f w = let (a, v) = carry_out f w in (ok a, v)
  fate (served ∷ rest) f w = let (a, v) = carry_out f (record w { faults = rest }) in (ok a, v)
  fate (refused ∷ rest) f w = (err redis_down, record w { faults = rest })
  fate (reply_lost ∷ rest) f w = (err redis_down, (carry_out f (record w { faults = rest })).1)

  unfoldable pub command : {A : Type 0} → (ℕ → R.Db → R.Db × A) → M (World R) A
  command f w = fate w.faults f w

  abbrev pub redis_get : Key → M (World R) (Option Value)
  redis_get k = command (λ now db. (db, R.get now k db))

  abbrev pub redis_set : Key → Value → ℕ → M (World R) (Unit {0})
  redis_set k v ttl = command (λ now db. (R.set now k v ttl db, tt))

  abbrev pub redis_set_nx : Key → Value → ℕ → M (World R) Bool
  redis_set_nx k v ttl = command (λ now db. R.set_nx now k v ttl db)

  abbrev pub redis_del : Key → M (World R) Bool
  redis_del k = command (λ now db. R.del now k db)

  -- `Date.now()`.
  unfoldable pub now : M (World R) ℕ
  now w = (ok w.clock, w)

  -- `await new Promise((resolve) => setTimeout(resolve, ms))`.
  unfoldable pub sleep : ℕ → M (World R) (Unit {0})
  sleep ms w = (ok tt, record w { clock = w.clock + ms })

  unfoldable pub random_token : M (World R) ℕ
  random_token w = (ok w.tokens, record w { tokens = suc w.tokens })

  unfoldable pub random_uuid : M (World R) ℕ
  random_uuid w = (ok w.uuids, record w { uuids = suc w.uuids })

  -- A call of the hotspot manager, which the store is handed: it is recorded, and answers.
  unfoldable pub router_call : {A : Type 0} → RouterCall → A → M (World R) A
  router_call c a w = (ok a, record w { calls = w.calls ++ c ∷ [] })

  abbrev pub both : Result (Unit {0}) → Result (Unit {0}) → Result (Unit {0})
  both (ok _) r = r
  both (err e) r = err e

  -- `Promise.all`: all are issued, and the whole fails if one does.
  unfoldable pub all : List (M (World R) (Unit {0})) → M (World R) (Unit {0})
  all [] w = (ok tt, w)
  all (m ∷ ms) w = let (r, v) = m w in let (rs, u) = all ms v in (both r rs, u)

infixl 5 ◌>>=◌ ◌>>◌
-- `unfolding ◌>>=◌` opens every combinator of this module.
unfoldable pub ◌>>=◌ : {S A B : Type 0} → M S A → (A → M S B) → M S B
unfolding pure raise attempt finally command now sleep random_token random_uuid router_call all
◌>>=◌ m f s = and_then (m s) f

unfoldable pub ◌>>◌ : {S B : Type 0} → M S (Unit {0}) → M S B → M S B
unfolding ◌>>=◌
◌>>◌ m k s = and_then (m s) (λ _. k)

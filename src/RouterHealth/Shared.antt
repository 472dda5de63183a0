-- ===== src/RouterHealth/Shared.antt =====
-- src/services/routerHealth.js: instances that share the health of the routers through Redis.
use relay_cerebro_infra.Base.{
  ℕ, String, false, Option, none, some, List, [], ◌∷◌, ◌≡◌, refl, str_eq, or_null, ap, ◌∙◌,
}
use relay_cerebro_infra.Base.Dict.{lookup-insert, lookup-insert_self}
use relay_cerebro_infra.RouterHealth.{
  Health, Store, get_health, can_attempt, redis_hash, parse_redis_hash, or_empty, or_new, read,
  HashRead, read_error, refresh_from_redis, preload_router_health,
}

-- The router ids of a preload do not name this router.
abbrev pub NotNamed : String → List (String × HashRead) → Type 0
NotNamed r [] = Unit {0}
NotNamed r ((i, d) ∷ rest) = (str_eq i r ≡ false) × NotNamed r rest

or_null-or_empty : (o : Option String) → or_null (some (or_empty o)) ≡ or_null o
or_null-or_empty none = refl
or_null-or_empty (some s) = refl

get_health-refresh :
    (r : String) (h : Health) (store : Store)
    → get_health r (refresh_from_redis r (read (some (redis_hash h))) store)
      ≡ record h { last_err_code = or_null h.last_err_code }
unfolding get_health refresh_from_redis parse_redis_hash redis_hash
get_health-refresh r h store =
    ap or_new (
      lookup-insert_self r (record h { last_err_code = or_null (some (or_empty h.last_err_code)) })
        store)
    ∙ ap (λ code. record h { last_err_code = code }) (or_null-or_empty h.last_err_code)

other-refresh :
    (i r : String) (d : HashRead) (store : Store)
    → str_eq i r ≡ false
    → get_health r (refresh_from_redis i d store) ≡ get_health r store
unfolding get_health refresh_from_redis parse_redis_hash
other-refresh i r read_error store other = refl
other-refresh i r (read none) store other = refl
other-refresh i r (read (some d)) store other = rw (lookup-insert, other) refl

other-preload :
    (r : String) (rest : List (String × HashRead)) (store : Store)
    → NotNamed r rest
    → get_health r (preload_router_health rest store) ≡ get_health r store
unfolding preload_router_health
other-preload r [] store names = refl
other-preload r ((i, d) ∷ rest) store (other, names) =
    other-preload r rest (refresh_from_redis i d store) names ∙ other-refresh i r d store other

-- An instance that preloads the hash which another has written for a router, in whatever store it is
-- and whatever it reads for other routers after it, lets the router be attempted exactly when the
-- writer does, and counts the same failures.
pub preload-agrees :
    (now : ℕ) (r : String) (writer reader : Store) (rest : List (String × HashRead))
    → NotNamed r rest
    → let preloaded =
        preload_router_health ((r, read (some (redis_hash (get_health r writer)))) ∷ rest) reader in
      (can_attempt now r preloaded ≡ can_attempt now r writer)
      × ((get_health r preloaded).consecutive_fails ≡ (get_health r writer).consecutive_fails)
unfolding can_attempt preload_router_health
preload-agrees now r writer reader rest names =
    let same =
      other-preload r rest
        (refresh_from_redis r (read (some (redis_hash (get_health r writer)))) reader) names
      ∙ get_health-refresh r (get_health r writer) reader in
    (rw (same) refl, rw (same) refl)

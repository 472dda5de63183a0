-- ===== src/IdentityStore/Tests.antt =====
-- src/services/identityStore.js on concrete identities.
use relay_cerebro_infra.Base.{true, some, none, List, [], ◌∷◌, ◌≤◌, ◌≡◌, refl, arith}
use relay_cerebro_infra.IdentityStore.{
  Pending, Identity, new_pending, get_identity, get_pending, mark_pending, mark_pending_applied,
}
use relay_cerebro_infra.IdentityStore.Actions.{length, is_applied, mark_applied}
use relay_cerebro_infra.IdentityStore.Laws.{mark_applied-is_applied}
use relay_cerebro_infra.IdentityStore.Payments.{mark_pending-applied}

abbrev order_1 : Pending
order_1 = new_pending 10 "p1" none (some "r1") none 0

abbrev waiting : Identity
waiting = record {
  sid = "s1";
  created_at = 1;
  last_seen = none;
  pending = some order_1;
  applied = [];
  updated_at = some 10;
}

mark_applied-is_applied_example :
    (all' : List Identity) × (r' : Identity) × (mark_applied true 20 "s1" "authorize" (waiting ∷ [])
      ≡ some (all', true))
    × (is_applied "s1" "authorize" all' ≡ true)
    × (get_identity "s1" all' ≡ some r')
    × (length r'.applied ≤ 50)
    × (get_identity "s2" all' ≡ get_identity "s2" (waiting ∷ []))
unfolding get_identity
mark_applied-is_applied_example =
    mark_applied-is_applied 20 "s1" "authorize" waiting (waiting ∷ []) "s2" (omega arith) refl refl
      refl refl

mark_pending-applied_example :
    (all' : List Identity) × (p : Pending) × (all'' : List Identity) × (mark_pending true 10 "s1"
        (some "p1")
        none
        (some "r1")
        none
        0
        []
      ≡ some (all', p))
    × (get_pending "s1" all' ≡ some p)
    × ((p.pedido_id ≡ "p1") × (p.attempts ≡ 0))
    × (get_pending "s2" all' ≡ get_pending "s2" [])
    × (mark_pending_applied true 30 "s1" "p1" all' ≡ some (all'', true))
    × (get_pending "s1" all'' ≡ none)
    × (get_pending "s2" all'' ≡ get_pending "s2" [])
mark_pending-applied_example =
    mark_pending-applied 10 30 "s1" "p1" none (some "r1") none [] "s2" refl refl refl

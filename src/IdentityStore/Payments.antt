-- ===== src/IdentityStore/Payments.antt =====
-- src/services/identityStore.js: the life of a pending payment.
use relay_cerebro_infra.Base.{
  ℕ, String, Bool, true, false, Option, none, some, List, ◌≡◌, refl, arith, str_eq, str_eq_refl,
  eq_iff, Option-cases, inl, inr, ◌∙◌,
}
use relay_cerebro_infra.IdentityStore.{
  Pending, Identity, get_identity, put, get_pending, mark_pending, mark_pending_applied,
  mark_pending_failed, settle_pending, clear_pending, found_or_new, hold, new_pending, as_applied,
}
use relay_cerebro_infra.IdentityStore.Laws.{get_identity-put, get_identity-sid}

pub found_or_new-sid :
    (now : ℕ) (sid : String) (all : List Identity)
    → (found_or_new now sid (get_identity sid all)).sid ≡ sid
found_or_new-sid now sid all = elim (Option-cases (get_identity sid all)) [
  | inl n ↦ rw (n) refl
  | inr (r, f) ↦ rw (f) (get_identity-sid sid r all f)
]

pub get_identity-put_self :
    (sid : String) (r : Identity) (all : List Identity)
    → r.sid ≡ sid
    → get_identity sid (put r all) ≡ some r
get_identity-put_self sid r all h = ground (arith, get_identity-put sid r all, eq_iff r.sid sid)

get_pending-put_other :
    (sid k : String) (r : Identity) (all : List Identity)
    → r.sid ≡ sid
    → str_eq sid k ≡ false
    → get_pending k (put r all) ≡ get_pending k all
unfolding get_pending
get_pending-put_other sid k r all h other_sid =
    let e : str_eq r.sid k ≡ false = rw (h) other_sid in rw (get_identity-put k r all, e) refl

-- A payment that is marked pending for an identity is what `getPending` gives for it, with no
-- attempts yet; once the payment of this order is marked applied, nothing is pending any more; and
-- neither call changes what any other identity has pending.
pub mark_pending-applied :
    (now later : ℕ) (sid pedido_id : String) (plan router expires : Option String)
    (all : List Identity) (k : String)
    → str_eq sid "" ≡ false
    → str_eq pedido_id "" ≡ false
    → str_eq sid k ≡ false
    → (all' : List Identity) × (p : Pending) × (all'' : List Identity) × (mark_pending true now sid
          (some pedido_id)
          plan
          router
          expires
          0
          all
        ≡ some (all', p))
      × (get_pending sid all' ≡ some p)
      × ((p.pedido_id ≡ pedido_id) × (p.attempts ≡ 0))
      × (get_pending k all' ≡ get_pending k all)
      × (mark_pending_applied true later sid pedido_id all' ≡ some (all'', true))
      × (get_pending sid all'' ≡ none)
      × (get_pending k all'' ≡ get_pending k all)
unfolding mark_pending mark_pending_applied get_pending settle_pending
mark_pending-applied now later sid pedido_id plan router expires all k named keyed other_sid =
    let p = new_pending now pedido_id plan router expires 0 in
    let r = hold now p (found_or_new now sid (get_identity sid all)) in
    let r' : Identity = record r { pending = some (as_applied later p); updated_at = some later } in
    let same = found_or_new-sid now sid all in
    let first = get_identity-put_self sid r all same in
    let second = get_identity-put_self sid r' (put r all) same in
    let others = get_pending-put_other sid k r all same other_sid in
    (
      put r all,
      p,
      put r' (put r all),
      rw (named, keyed) refl,
      rw (first) refl,
      (refl, refl),
      others,
      rw (named, keyed, first, str_eq_refl pedido_id) refl,
      rw (second) refl,
      get_pending-put_other sid k r' (put r all) same other_sid ∙ others,
    )

-- A call about an order that is not the pending one answers no and changes nothing: a payment that
-- replaced it is neither failed, nor applied, nor cleared.
other_order-keeps :
    (can_write : Bool) (now : ℕ) (sid pedido_id : String) (code : Option String) (n : ℕ)
    (next : Option ℕ) (all : List Identity) (r : Identity) (p : Pending)
    → get_identity sid all ≡ some r
    → r.pending ≡ some p
    → str_eq p.pedido_id pedido_id ≡ false
    → str_eq sid "" ≡ false
    → str_eq pedido_id "" ≡ false
    → (mark_pending_applied can_write now sid pedido_id all ≡ some (all, false))
      × (mark_pending_failed can_write now sid pedido_id code n next all ≡ some (all, false))
      × (clear_pending can_write now sid (some pedido_id) all ≡ some (all, false))
unfolding mark_pending_applied mark_pending_failed clear_pending settle_pending
other_order-keeps can_write now sid pedido_id code n next all r p found pend other_order named
      keyed =
    (ground arith, ground arith, ground arith)

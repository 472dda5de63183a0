-- ===== src/IdentityStore.antt =====
-- src/services/identityStore.js: the identities by sid, each with where it was last seen, its
-- pending payment and the actions applied to it. The file's list is passed and returned; `none` is
-- an exception, where the argument `can_write` says whether the file can be written. A file that
-- cannot be read reads as the empty list. `withLock` runs its function in every case, under one
-- lock or the other, and is left out. `Date.now()` is the argument `now`.

pub mod Actions
pub mod Laws
pub mod Payments
mod Tests
use relay_cerebro_infra.Base.{
  ℕ, suc, zero, ◌-◌, ◌*◌, String, Bool, true, false, not, ◌&&◌, ◌||◌, Option, none, some, List, [],
  ◌∷◌, ◌++◌, leb, ltb, str_eq, ◌==◌, truthy, or_null, if◌then◌else◌,
}

abbrev pub last_seen_ttl_ms : ℕ
last_seen_ttl_ms = 24 * 60 * 60 * 1000

abbrev pub applied_max_age_ms : ℕ
applied_max_age_ms = 14 * 24 * 60 * 60 * 1000

abbrev pub applied_max_items : ℕ
applied_max_items = 50

pub record LastSeen : Type 0 where
  pub ip : Option String
  pub mac : Option String
  pub router_id : Option String
  pub identity : Option String
  pub ts : ℕ

pub data PendingStatus : Type 0 where
  status_pending status_failed status_applied : PendingStatus

pub record Pending : Type 0 where
  pub pedido_id : String
  pub plan_id : Option String
  pub router_id : Option String
  pub expires_at : Option String
  pub marked_at : ℕ
  pub status : PendingStatus
  pub attempts : ℕ
  pub fail_code : Option String
  pub failed_at : Option ℕ
  pub next_eligible_at : Option ℕ
  pub applied_at : Option ℕ

-- An action applied, without its `meta`.
pub record Applied : Type 0 where
  pub action_key : String
  pub at_ms : ℕ

pub record Identity : Type 0 where
  pub sid : String
  pub created_at : ℕ
  pub last_seen : Option LastSeen
  pub pending : Option Pending
  pub applied : List Applied
  pub updated_at : Option ℕ

-- `getIdentity`.
unfoldable pub get_identity : String → List Identity → Option Identity
get_identity sid [] = none
get_identity sid (r ∷ all) = if str_eq r.sid sid then some r else get_identity sid all

-- The record at `findIdx` replaced, or pushed where there is none.
unfoldable pub put : Identity → List Identity → List Identity
put r [] = r ∷ []
put r (x ∷ all) = let rest = put r all in if str_eq x.sid r.sid then r ∷ all else x ∷ rest

abbrev pub write_all : {A : Type 0} → Bool → List Identity → A → Option (List Identity × A)
write_all can_write all a = if can_write then some (all, a) else none

abbrev pub is_applied_status : PendingStatus → Bool
is_applied_status status_pending = false
is_applied_status status_failed = false
is_applied_status status_applied = true

abbrev pub open_pending : Option Pending → Option Pending
open_pending none = none
open_pending (some p) = if is_applied_status p.status then none else some p

abbrev pub pending_of : Option Identity → Option Pending
pending_of none = none
pending_of (some r) = open_pending r.pending

unfoldable pub get_pending : String → List Identity → Option Pending
unfolding get_identity
get_pending sid all = pending_of (get_identity sid all)

abbrev pub found_or_new : ℕ → String → Option Identity → Identity
found_or_new now sid none = record {
  sid = sid;
  created_at = now;
  last_seen = none;
  pending = none;
  applied = [];
  updated_at = none;
}
found_or_new now sid (some r) = r

-- `a || b`.
abbrev or_else : Option String → Option String → Option String
or_else a b = if truthy a then a else b

pub record Context : Type 0 where
  pub ip : Option String
  pub mac : Option String
  pub router_id : Option String
  pub identity : Option String
  pub router_hint : Option String

abbrev seen_field : (LastSeen → Option String) → Option LastSeen → Option String
seen_field f none = none
seen_field f (some l) = f l

abbrev pub seen_now : ℕ → Context → Option LastSeen → LastSeen
seen_now now ctx old = record {
  ip = or_else ctx.ip (or_null (seen_field (λ l. l.ip) old));
  mac = or_else ctx.mac (or_null (seen_field (λ l. l.mac) old));
  router_id =
      or_else (or_else ctx.router_id (or_else ctx.identity (or_null ctx.router_hint)))
        (or_null (seen_field (λ l. l.router_id) old));
  identity = or_else ctx.identity (or_null (seen_field (λ l. l.identity) old));
  ts = now;
}

unfoldable pub upsert_last_seen :
    Bool → ℕ → String → Context → List Identity → Option (List Identity × Identity)
unfolding put get_identity
upsert_last_seen can_write now sid ctx all =
    let r = found_or_new now sid (get_identity sid all) in
    let r' = record r { last_seen = some (seen_now now ctx r.last_seen); updated_at = some now } in
    if str_eq sid "" then none else write_all can_write (put r' all) r'

abbrev pub new_pending : ℕ → String → Option String → Option String → Option String → ℕ → Pending
new_pending now pedido_id plan_id router_id expires_at attempts = record {
  pedido_id = pedido_id;
  plan_id = or_null plan_id;
  router_id = or_null router_id;
  expires_at = or_null expires_at;
  marked_at = now;
  status = status_pending;
  attempts = attempts;
  fail_code = none;
  failed_at = none;
  next_eligible_at = none;
  applied_at = none;
}

abbrev pub hold : ℕ → Pending → Identity → Identity
hold now p r = record r { pending = some p; updated_at = some now }

abbrev pub text_or_empty : Option String → String
text_or_empty none = ""
text_or_empty (some s) = s

-- What `markPending` takes; what its callers leave out has the default of the code.
unfoldable pub mark_pending :
    Bool
    → ℕ
    → String
    → Option String
    → Option String
    → Option String
    → Option String
    → ℕ
    → List Identity
    → Option (List Identity × Pending)
unfolding put get_identity
mark_pending can_write now sid pedido_id plan_id router_id expires_at attempts all =
    let p = new_pending now (text_or_empty pedido_id) plan_id router_id expires_at attempts in
    let r = hold now p (found_or_new now sid (get_identity sid all)) in
    if str_eq sid "" || not (truthy pedido_id) then none else write_all can_write (put r all) p

abbrev pub has_pedido : String → Option Pending → Bool
has_pedido pedido_id none = false
has_pedido pedido_id (some p) = str_eq p.pedido_id pedido_id

abbrev pub with_pending : (Pending → Pending) → Option Pending → Option Pending
with_pending f none = none
with_pending f (some p) = some (f p)

-- What `markPendingFailed` and `markPendingApplied` share: the pending payment of this order, changed.
unfoldable pub settle_pending :
    Bool
    → ℕ
    → (Pending → Pending)
    → String
    → Option Identity
    → List Identity
    → Option (List Identity × Bool)
unfolding put
settle_pending can_write now f pedido_id none all = some (all, false)
settle_pending can_write now f pedido_id (some r) all =
    if has_pedido pedido_id r.pending
    then write_all can_write
        (put (record r { pending = with_pending f r.pending; updated_at = some now }) all) true
    else some (all, false)

abbrev default_code : Option String → String
default_code none = "authorization_failed_after_retries"
default_code (some c) = if str_eq c "" then "authorization_failed_after_retries" else c

abbrev pub as_failed : ℕ → Option String → ℕ → Option ℕ → Pending → Pending
as_failed now fail_code attempts next p = record p {
  status = status_failed;
  fail_code = some (default_code fail_code);
  failed_at = some now;
  attempts = attempts;
  next_eligible_at = next;
}

unfoldable pub mark_pending_failed :
    Bool
    → ℕ
    → String
    → String
    → Option String
    → ℕ
    → Option ℕ
    → List Identity
    → Option (List Identity × Bool)
unfolding settle_pending get_identity
mark_pending_failed can_write now sid pedido_id fail_code attempts next all =
    if str_eq sid "" || str_eq pedido_id ""
    then none
    else settle_pending can_write now (as_failed now fail_code attempts next) pedido_id
        (get_identity sid all) all

abbrev pub as_applied : ℕ → Pending → Pending
as_applied now p = record p {
  status = status_applied;
  applied_at = some now;
  fail_code = none;
  failed_at = none;
  next_eligible_at = none;
}

unfoldable pub mark_pending_applied :
    Bool → ℕ → String → String → List Identity → Option (List Identity × Bool)
unfolding settle_pending get_identity
mark_pending_applied can_write now sid pedido_id all =
    if str_eq sid "" || str_eq pedido_id ""
    then none
    else settle_pending can_write now (as_applied now) pedido_id (get_identity sid all) all

-- `clearPending`; without an order, whatever is pending.
abbrev pub may_clear : Option String → Option Pending → Bool
may_clear pedido_id none = true
may_clear none (some p) = true
may_clear (some x) (some p) = str_eq x "" || str_eq p.pedido_id x

abbrev clear_found :
    Bool → ℕ → Option String → Option Identity → List Identity → Option (List Identity × Bool)
clear_found can_write now pedido_id none all = some (all, false)
clear_found can_write now pedido_id (some r) all =
    if may_clear pedido_id r.pending
    then write_all can_write (put (record r { pending = none; updated_at = some now }) all) true
    else some (all, false)

unfoldable pub clear_pending :
    Bool → ℕ → String → Option String → List Identity → Option (List Identity × Bool)
unfolding put get_identity
clear_pending can_write now sid pedido_id all =
    clear_found can_write now pedido_id (get_identity sid all) all

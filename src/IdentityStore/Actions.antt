-- ===== src/IdentityStore/Actions.antt =====
-- src/services/identityStore.js: the actions applied to an identity, and `prune`.
use relay_cerebro_infra.Base.{
  ℕ, suc, zero, ◌-◌, String, Bool, true, false, not, ◌&&◌, ◌||◌, Option, none, some, List, [], ◌∷◌,
  ◌++◌, leb, ltb, str_eq, ◌==◌, if◌then◌else◌,
}
use relay_cerebro_infra.IdentityStore.{
  last_seen_ttl_ms, applied_max_age_ms, applied_max_items, LastSeen, Pending, Applied, Identity,
  get_identity, put, write_all,
}

abbrev pub length : List Applied → ℕ
length [] = 0
length (a ∷ l) = suc (length l)

abbrev pub drop : ℕ → List Applied → List Applied
drop zero l = l
drop (suc n) [] = []
drop (suc n) (a ∷ l) = drop n l

-- `.slice(-n)`.
unfoldable pub last_items : ℕ → List Applied → List Applied
last_items n l = drop (length l - n) l

abbrev pub is_recent : ℕ → Applied → Bool
is_recent now a = not (a.at_ms == 0) && leb (now - a.at_ms) applied_max_age_ms

unfoldable pub recent : ℕ → List Applied → List Applied
recent now [] = []
recent now (a ∷ l) = let rest = recent now l in if is_recent now a then a ∷ rest else rest

unfoldable pub kept : ℕ → List Applied → List Applied
unfolding last_items recent
kept now l = last_items applied_max_items (recent now l)

unfoldable pub has_key : String → List Applied → Bool
has_key k [] = false
has_key k (a ∷ l) = if str_eq a.action_key k then true else has_key k l

abbrev pub applied_of : Option Identity → List Applied
applied_of none = []
applied_of (some r) = r.applied

unfoldable pub is_applied : String → String → List Identity → Bool
unfolding get_identity has_key
is_applied sid action_key all =
    if str_eq sid "" || str_eq action_key ""
    then false
    else has_key action_key (applied_of (get_identity sid all))

abbrev pub record_applied : ℕ → String → Identity → Identity
record_applied now action_key r = record r {
  applied = kept now (r.applied ++ record { action_key = action_key; at_ms = now } ∷ []);
  updated_at = some now;
}

abbrev pub applied_found :
    Bool → ℕ → String → Option Identity → List Identity → Option (List Identity × Bool)
applied_found can_write now action_key none all = none
applied_found can_write now action_key (some r) all =
    write_all can_write (put (record_applied now action_key r) all) true

unfoldable pub mark_applied :
    Bool → ℕ → String → String → List Identity → Option (List Identity × Bool)
unfolding put get_identity kept
mark_applied can_write now sid action_key all =
    if str_eq sid "" || str_eq action_key ""
    then none
    else applied_found can_write now action_key (get_identity sid all) all

abbrev pub seen_until : ℕ → Option LastSeen → Option LastSeen
seen_until now none = none
seen_until now (some l) =
    if not (l.ts == 0) && ltb last_seen_ttl_ms (now - l.ts) then none else some l

-- `new Date(expiresAt).getTime()` is the argument `date_ms`, `none` where it is not finite.
abbrev pub has_expired : (String → Option ℕ) → ℕ → Option String → Bool
has_expired date_ms now none = false
has_expired date_ms now (some s) =
    if str_eq s "" then false else elim (date_ms s) [ none ↦ false | some t ↦ ltb t now ]

abbrev pub pending_until : (String → Option ℕ) → ℕ → Option Pending → Option Pending
pending_until date_ms now none = none
pending_until date_ms now (some p) = if has_expired date_ms now p.expires_at then none else some p

abbrev pub pruned : (String → Option ℕ) → ℕ → Identity → Identity
pruned date_ms now r = record r {
  last_seen = seen_until now r.last_seen;
  pending = pending_until date_ms now r.pending;
  applied = kept now r.applied;
  updated_at = some now;
}

unfoldable pub prune_all : (String → Option ℕ) → ℕ → List Identity → List Identity
unfolding kept
prune_all date_ms now [] = []
prune_all date_ms now (r ∷ all) = pruned date_ms now r ∷ prune_all date_ms now all

abbrev pub count : List Identity → ℕ
count [] = 0
count (r ∷ all) = suc (count all)

unfoldable pub prune : (String → Option ℕ) → Bool → ℕ → List Identity → Option (List Identity × ℕ)
unfolding prune_all
prune date_ms can_write now all =
    write_all can_write (prune_all date_ms now all) (count (prune_all date_ms now all))

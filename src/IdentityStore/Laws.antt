-- ===== src/IdentityStore/Laws.antt =====
-- src/services/identityStore.js: what is found after a record is stored, and the applied actions.
use relay_cerebro_infra.Base.{
  ℕ, suc, zero, ◌-◌, ◌≤◌, ◌<◌, String, true, false, some, List, [], ◌∷◌, ◌++◌, ◌≡◌, refl, arith,
  str_eq, str_eq_refl, eq_iff, if◌then◌else◌, Bool-cases, inl, inr, ap,
}
use relay_cerebro_infra.IdentityStore.{Applied, Identity, get_identity, put}
use relay_cerebro_infra.IdentityStore.Actions.{
  length, drop, is_recent, recent, kept, has_key, is_applied, mark_applied, record_applied,
}

pub get_identity-put :
    (k : String) (r : Identity) (all : List Identity)
    → get_identity k (put r all) ≡ (if str_eq r.sid k then some r else get_identity k all)
unfolding get_identity put
get_identity-put k r [] = ground arith
get_identity-put k r (x ∷ all) =
    ground (arith, eq_iff r.sid k, eq_iff x.sid k, eq_iff x.sid r.sid, get_identity-put k r all)

pub get_identity-sid :
    (k : String) (r : Identity) (all : List Identity) → get_identity k all ≡ some r → r.sid ≡ k
unfolding get_identity
get_identity-sid k r [] h = ground arith
get_identity-sid k r (x ∷ all) h = ground (arith, eq_iff x.sid k, get_identity-sid k r all)

length-append : (l : List Applied) (x : Applied) → length (l ++ x ∷ []) ≡ suc (length l)
length-append [] x = refl
length-append (a ∷ l) x = ap suc (length-append l x)

length-drop : (n : ℕ) (l : List Applied) → length (drop n l) ≡ length l - n
length-drop zero l = omega arith
length-drop (suc n) [] = omega arith
length-drop (suc n) (a ∷ l) = omega (arith, length-drop n l)

has_key-last :
    (k : String) (x : Applied) (l : List Applied)
    → str_eq x.action_key k ≡ true
    → has_key k (l ++ x ∷ []) ≡ true
unfolding has_key
has_key-last k x [] h = ground arith
has_key-last k x (a ∷ l) h = ground (arith, has_key-last k x l h)

has_key-drop :
    (n : ℕ) (k : String) (x : Applied) (l : List Applied)
    → n ≤ length l
    → str_eq x.action_key k ≡ true
    → has_key k (drop n (l ++ x ∷ [])) ≡ true
has_key-drop zero k x l h e = has_key-last k x l e
has_key-drop (suc n) k x [] h e = absurd (omega arith)
has_key-drop (suc n) k x (a ∷ l) h e = has_key-drop n k x l (omega arith) e

recent-append :
    (now : ℕ) (x : Applied) (l : List Applied)
    → is_recent now x ≡ true
    → recent now (l ++ x ∷ []) ≡ recent now l ++ x ∷ []
unfolding recent
recent-append now x [] h = rw (h) refl
recent-append now x (a ∷ l) h = elim (Bool-cases (is_recent now a)) [
  | inl e ↦ rw (e) (ap (λ z. a ∷ z) (recent-append now x l h))
  | inr e ↦ rw (e) (recent-append now x l h)
]

kept-bounded : (now : ℕ) (l : List Applied) → length (kept now l) ≤ 50
unfolding kept
kept-bounded now l = omega (arith, length-drop (length (recent now l) - 50) (recent now l))

pub kept-newest :
    (now : ℕ) (k : String) (l : List Applied)
    → 0 < now
    → has_key k (kept now (l ++ record { action_key = k; at_ms = now } ∷ [])) ≡ true
unfolding kept
kept-newest now k l h =
    let x : Applied = record { action_key = k; at_ms = now } in
    let m = recent now l in
    rw (recent-append now x l (ground arith), length-append m x)
      (has_key-drop (suc (length m) - 50) k x m (omega arith) (str_eq_refl k))

-- Marking an action as applied, for a known identity and with a clock past the epoch, makes
-- `isApplied` answer yes for it, keeps at most 50 actions, and leaves every other identity as it
-- was.
pub mark_applied-is_applied :
    (now : ℕ) (sid key : String) (r : Identity) (all : List Identity) (k : String)
    → 0 < now
    → str_eq sid "" ≡ false
    → str_eq key "" ≡ false
    → get_identity sid all ≡ some r
    → str_eq sid k ≡ false
    → (all' : List Identity) × (r' : Identity) × (mark_applied true now sid key all
        ≡ some (all', true))
      × (is_applied sid key all' ≡ true)
      × (get_identity sid all' ≡ some r')
      × (length r'.applied ≤ 50)
      × (get_identity k all' ≡ get_identity k all)
unfolding mark_applied is_applied
mark_applied-is_applied now sid key r all k clock named keyed found other_sid =
    let r' = record_applied now key r in
    let same = get_identity-sid sid r all found in
    let self : get_identity sid (put r' all) ≡ some r' =
      ground (arith, get_identity-put sid r' all, eq_iff r.sid sid) in
    (
      put r' all,
      r',
      rw (named, keyed, found) refl,
      rw (named, keyed, self) (kept-newest now key r.applied clock),
      self,
      kept-bounded now (r.applied ++ record { action_key = key; at_ms = now } ∷ []),
      ground (arith, get_identity-put k r' all, eq_iff sid k, eq_iff r.sid k),
    )

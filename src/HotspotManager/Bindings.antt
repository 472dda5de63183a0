-- ===== src/HotspotManager/Bindings.antt =====
-- src/services/hotspotManager.js at a router that keeps its documented behaviour.
use relay_cerebro_infra.Base.{
  ℕ, zero, suc, append-nil, Bool, true, false, ◌||◌, List, [], ◌∷◌, ◌++◌, ◌≡◌, refl, arith,
  if◌then◌else◌, ap, ◌∙◌, Bool-cases, inl, inr,
}
use relay_cerebro_infra.StateMachine.Mac.{codes}
use relay_cerebro_infra.MikrotikApi.{Word, Sentence}
use relay_cerebro_infra.MikrotikApi.Client.{Row, word_eq, row_from}
use relay_cerebro_infra.Authorize.Commands.{Text, is_empty, trim_codes}
use relay_cerebro_infra.HotspotParsers.{
  an_object, with_data, plain, nil, next, push, size_items, first_queue,
}
use relay_cerebro_infra.HotspotParsers.Levels.{
  levels, extract_rows-levels, rows_at, below, push_nil,
}
use relay_cerebro_infra.HotspotManager.{
  CommandReply, items_of, rows_of, field, has_bypass, is_bypassed, address_of, threw,
  already_authorized, authorized, type_of, to_lower_case, sanitize_comment, add_binding,
  authorize_session_on_router, served_as,
}

-- The rows whose address is this one.
abbrev pub with_address : Text → List Row → List Row
with_address ip [] = []
with_address ip (r ∷ rows) =
    let rest = with_address ip rows in if word_eq (address_of r) ip then r ∷ rest else rest

-- What the commands on bindings do at a router, as its manual has it: a print with a query answers
-- with the bindings of that address, and an add that is served adds one binding, with the attributes
-- that the command's words give it and others of the router's own, such as an id.
pub record HotspotRouter : Type 1 where
  pub S : Type 0
  pub bindings : S → List Row
  pub run : Sentence → S → S × CommandReply
  pub run-print :
      (ip : Text) (s : S)
      → run (codes "/ip/hotspot/ip-binding/print" ∷ (codes "?address=" ++ ip) ∷ []) s
        ≡ (s, record { ok = true; data_rows = with_address ip (bindings s) })
  pub added : Sentence → S → Row
  pub run-add :
      (words : Sentence) (s : S)
      → (run (codes "/ip/hotspot/ip-binding/add" ∷ words) s).1.ok ≡ true
      → bindings (run (codes "/ip/hotspot/ip-binding/add" ∷ words) s).0
        ≡ bindings s ++ added words s ∷ []
  pub added-field :
      (words : Sentence) (s : S) (key : Word)
      → is_empty (field key (row_from words [])) ≡ false
      → field key (added words s) ≡ field key (row_from words [])

rows_at-items_of : (rows : List Row) → rows_at (items_of rows) ≡ rows
rows_at-items_of [] = refl
rows_at-items_of (r ∷ rows) = ap (◌∷◌ r) (rows_at-items_of rows)

below-items_of : (rows : List Row) → below (items_of rows) ≡ nil
unfolding push
below-items_of [] = refl
below-items_of (r ∷ rows) = below-items_of rows

levels-nil : (d : ℕ) → levels {R = Row} d nil ≡ []
unfolding levels
levels-nil zero = refl
levels-nil (suc d) = refl

levels-items_of : (d : ℕ) (rows : List Row) → levels (suc d) (items_of rows) ≡ rows
unfolding levels
levels-items_of d [] = refl
levels-items_of d (r ∷ rows) =
    ap (λ q. rows_at (items_of (r ∷ rows)) ++ levels d q) (below-items_of (r ∷ rows))
    ∙ ap (◌++◌ (rows_at (items_of (r ∷ rows)))) (levels-nil d)
    ∙ append-nil (rows_at (items_of (r ∷ rows)))
    ∙ rows_at-items_of (r ∷ rows)

rows_of-print : (rows : List Row) → rows_of (record { ok = true; data_rows = rows }) ≡ [] ∷ rows
unfolding rows_of first_queue push size_items levels
rows_of-print rows =
    let d : ℕ = size_items (items_of rows) in
    extract_rows-levels (an_object (next (with_data (items_of rows)) nil) (plain []))
      (suc (suc (suc d))) (omega arith)
    ∙ ap (λ q. [] ∷ levels (suc (suc d)) q) (push_nil (items_of rows))
    ∙ ap (◌∷◌ []) (levels-items_of (suc d) rows)

word_eq_refl : (w : Word) → word_eq w w ≡ true
word_eq_refl [] = refl
word_eq_refl (c ∷ w) = ground (arith, word_eq_refl w)

or_assoc : (a b c : Bool) → (a || (b || c)) ≡ (a || b || c)
or_assoc true b c = refl
or_assoc false b c = refl

or_true : (a : Bool) → (a || true) ≡ true
or_true true = refl
or_true false = refl

has_bypass-append :
    (ip : Text) (rows more : List Row)
    → has_bypass ip (rows ++ more) ≡ (has_bypass ip rows || has_bypass ip more)
unfolding has_bypass
has_bypass-append ip [] more = refl
has_bypass-append ip (r ∷ rows) more =
    ap (◌||◌ (is_bypassed ip r)) (has_bypass-append ip rows more)
    ∙ or_assoc (is_bypassed ip r) (has_bypass ip rows) (has_bypass ip more)

has_bypass-with_address :
    (ip : Text) (rows : List Row) → has_bypass ip (with_address ip rows) ≡ has_bypass ip rows
unfolding has_bypass
has_bypass-with_address ip [] = refl
has_bypass-with_address ip (r ∷ rows) = let rest = has_bypass-with_address ip rows in ground arith

is_bypassed-empty_row : (ip : Text) → is_empty ip ≡ false → is_bypassed ip [] ≡ false
unfolding address_of field trim_codes
is_bypassed-empty_row [] h = absurd (ground arith)
is_bypassed-empty_row (c ∷ ip) h = refl

module _ (router : HotspotRouter) where
  -- The one decision that is left, at a router that answers.
  authorize-decides :
      (session_id ip : Text) (s : router.S)
      → is_empty session_id ≡ false
      → is_empty ip ≡ false
      → authorize_session_on_router router.run true session_id ip s ≡ (
          if has_bypass ip (router.bindings s)
          then (s, already_authorized)
          else served_as authorized (router.run (add_binding session_id ip) s))
  unfolding authorize_session_on_router has_bypass
  authorize-decides session_id ip s h k =
      let seen : has_bypass ip
            (rows_of (record { ok = true; data_rows = with_address ip (router.bindings s) }))
          ≡ has_bypass ip (router.bindings s) =
        ap (has_bypass ip) (rows_of-print (with_address ip (router.bindings s)))
        ∙ ap (λ b. b || has_bypass ip (with_address ip (router.bindings s)))
            (is_bypassed-empty_row ip k)
        ∙ has_bypass-with_address ip (router.bindings s) in
      rw (h, k, router.run-print ip s, seen) refl

  abbrev bypass_words : Text → Text → Sentence
  bypass_words ip comment =
      (codes "=address=" ++ ip) ∷ codes "=type=bypassed" ∷ (codes "=comment=" ++ comment) ∷ []

  -- The binding that the words of `buildAddBindingSentence` give is one that `findBindingByIp` takes
  -- for the address's bypass.
  added-bypassed :
      (ip comment : Text) (s : router.S)
      → is_empty ip ≡ false
      → trim_codes ip ≡ ip
      → is_bypassed ip (router.added (bypass_words ip comment) s) ≡ true
  unfolding row_from address_of type_of to_lower_case field trim_codes
  added-bypassed ip comment s k w =
      let words = bypass_words ip comment in
      let address : field (codes "address") (router.added words s) ≡ ip =
        router.added-field words s (codes "address") k in
      let type : field (codes "type") (router.added words s) ≡ codes "bypassed" =
        router.added-field words s (codes "type") refl in
      rw (address, type, k, w, word_eq_refl ip) refl

  has_bypass-added :
      (ip comment : Text) (s : router.S)
      → is_empty ip ≡ false
      → trim_codes ip ≡ ip
      → has_bypass ip (router.bindings s ++ router.added (bypass_words ip comment) s ∷ []) ≡ true
  unfolding has_bypass
  has_bypass-added ip comment s k w =
      let binding = router.added (bypass_words ip comment) s in
      has_bypass-append ip (router.bindings s) (binding ∷ [])
      ∙ rw (added-bypassed ip comment s k w) (or_true (has_bypass ip (router.bindings s)))

  decides-leaves_bypass :
      (session_id ip : Text) (s : router.S)
      → is_empty ip ≡ false
      → trim_codes ip ≡ ip
      → ¬ (
          (if has_bypass ip (router.bindings s)
            then (s, already_authorized)
            else served_as authorized (router.run (add_binding session_id ip) s)).1
          ≡ threw)
      → has_bypass ip (
          router.bindings
            (if has_bypass ip (router.bindings s)
              then (s, already_authorized)
              else served_as authorized (router.run (add_binding session_id ip) s)).0)
        ≡ true
  unfolding add_binding
  decides-leaves_bypass session_id ip s n w =
      let sent : Sentence = add_binding session_id ip in
      elim (Bool-cases (has_bypass ip (router.bindings s))) [
        | inl e ↦ rw (e) (λ h. e)
        | inr e ↦ elim (Bool-cases ((router.run sent s).1.ok)) [
          | inl k ↦
              rw (e, k)
                (λ h.
                  rw (router.run-add (bypass_words ip (sanitize_comment session_id)) s k)
                    (has_bypass-added ip (sanitize_comment session_id) s n w))
          | inr k ↦ rw (e, k) (λ h. absurd (h refl))
        ]
      ]

  authorize-goes :
      (session_id ip : Text) (can_connect : Bool) (s : router.S)
      → ¬ ((authorize_session_on_router router.run can_connect session_id ip s).1 ≡ threw)
      → (can_connect ≡ true) × (is_empty session_id ≡ false) × (is_empty ip ≡ false)
  unfolding authorize_session_on_router
  authorize-goes [] ip can_connect s h = absurd (h refl)
  authorize-goes (c ∷ session_id) [] can_connect s h = absurd (h refl)
  authorize-goes (c ∷ session_id) (d ∷ ip) false s h = absurd (h refl)
  authorize-goes (c ∷ session_id) (d ∷ ip) true s h = (refl, refl, refl)

  -- Where the address has no space about it and `authorizeSessionOnRouter` does not throw, the router has a bypass for the address after it,
  -- and a second call for that address, of any session, answers that it is authorized already and
  -- leaves the router as it is.
  pub authorize_session_on_router-again :
      (session_id other ip : Text) (can_connect : Bool) (s : router.S)
      → is_empty other ≡ false
      → trim_codes ip ≡ ip
      → ¬ ((authorize_session_on_router router.run can_connect session_id ip s).1 ≡ threw)
      → (has_bypass ip
            (router.bindings (authorize_session_on_router router.run can_connect session_id ip s).0)
          ≡ true)
        × (authorize_session_on_router router.run can_connect other ip
              (authorize_session_on_router router.run can_connect session_id ip s).0
            ≡ (
              (authorize_session_on_router router.run can_connect session_id ip s).0,
              already_authorized,
            ))
  authorize_session_on_router-again session_id other ip can_connect s o w h =
      let (c, k, l) = authorize-goes session_id ip can_connect s h in
      let after : router.S =
        (authorize_session_on_router router.run can_connect session_id ip s).0 in
      let decides : authorize_session_on_router router.run can_connect session_id ip s ≡ (
          if has_bypass ip (router.bindings s)
          then (s, already_authorized)
          else served_as authorized (router.run (add_binding session_id ip) s)) =
        rw (c) (authorize-decides session_id ip s k l) in
      let bypassed : has_bypass ip (router.bindings after) ≡ true =
        rw (decides)
          (decides-leaves_bypass session_id ip s l w (λ t. h (ap (λ p. p.1) decides ∙ t))) in
      (
        bypassed,
        ap (λ b. authorize_session_on_router router.run b other ip after) c
            ∙ authorize-decides other ip after o l
            ∙ rw (bypassed) refl,
      )

-- ===== src/HotspotManager/Tests.antt =====
-- src/services/hotspotManager.js on small inputs.
use relay_cerebro_infra.Base.{
  ℕ, zero, suc, true, false, List, [], ◌∷◌, ◌++◌, ◌≡◌, if◌then◌else◌, refl, arith,
}
use relay_cerebro_infra.StateMachine.Mac.{codes}
use relay_cerebro_infra.MikrotikApi.{Word, Sentence}
use relay_cerebro_infra.MikrotikApi.Client.{Row, word_eq, row_from}
use relay_cerebro_infra.Authorize.Commands.{Text, trim_codes}
use relay_cerebro_infra.HotspotManager.{
  CommandReply, has_bypass, address_of, type_of, field, to_lower_case, already_authorized,
  add_binding, authorize_session_on_router,
}
use relay_cerebro_infra.HotspotManager.Bindings.{
  with_address, HotspotRouter, authorize_session_on_router-again,
}

abbrev binding : Text → Row
binding ip = (codes "address", ip) ∷ (codes "type", codes "bypassed") ∷ []

-- The text behind `?address=` or `=address=`.
abbrev behind : ℕ → Word → Text
behind zero w = w
behind (suc n) [] = []
behind (suc n) (c ∷ w) = behind n w

abbrev first_word : Sentence → Word
first_word [] = []
first_word (w ∷ words) = w

abbrev serve : Sentence → List Row → List Row × CommandReply
serve [] rows = (rows, record { ok = false; data_rows = [] })
serve (c ∷ words) rows =
    if word_eq c (codes "/ip/hotspot/ip-binding/add")
    then (rows ++ row_from words [] ∷ [], record { ok = true; data_rows = [] })
    else (rows, record { ok = true; data_rows = with_address (behind 9 (first_word words)) rows })

abbrev small_router : HotspotRouter
small_router = record {
  S = List Row;
  bindings = λ rows. rows;
  run = serve;
  run-print = λ ip rows. refl;
  added = λ words rows. row_from words [];
  run-add = λ words rows h. refl;
  added-field = λ words rows key h. refl;
}

authorize_session_on_router-again_example :
    (has_bypass (codes "10.0.0.9") (
        (authorize_session_on_router serve true
          (codes "s1")
          (codes "10.0.0.9")
          (binding (codes "10.0.0.7") ∷ [])).0)
      ≡ true)
    × (authorize_session_on_router serve true
          (codes "s2")
          (codes "10.0.0.9")
          (authorize_session_on_router serve true
            (codes "s1")
            (codes "10.0.0.9")
            (binding (codes "10.0.0.7") ∷ [])).0
        ≡ (
          (authorize_session_on_router serve true
              (codes "s1")
              (codes "10.0.0.9")
              (binding (codes "10.0.0.7") ∷ [])).0,
          already_authorized,
        ))
unfolding authorize_session_on_router has_bypass address_of type_of field to_lower_case trim_codes
    add_binding
authorize_session_on_router-again_example =
    authorize_session_on_router-again small_router (codes "s1") (codes "s2") (codes "10.0.0.9") true
      (binding (codes "10.0.0.7") ∷ []) refl refl (λ h. absurd (ground arith))

-- ===== src/HotspotManager.antt =====
-- src/services/hotspotManager.js: access of a session at its router's hotspot. Texts are lists of
-- characters' codes. A router is a state and what `executeRouterCommand` makes of one sentence in it;
-- `can_connect` tells whether the session names a router and the credentials are set, without which
-- that function throws. Logs are left out, and an error is kept without its text.
mod Bindings
mod Tests
use relay_cerebro_infra.Base.{
  ℕ, Bool, true, false, not, ◌&&◌, ◌||◌, Option, none, some, List, [], ◌∷◌, ◌++◌, ◌+◌, leb, ◌==◌,
  if◌then◌else◌,
}
use relay_cerebro_infra.StateMachine.Mac.{codes}
use relay_cerebro_infra.MikrotikApi.{Word, Sentence}
use relay_cerebro_infra.MikrotikApi.Client.{Row, word_eq}
use relay_cerebro_infra.Authorize.Commands.{Text, is_empty, trim_codes, remove_quotes}
use relay_cerebro_infra.HotspotParsers.{
  Items, Argument, an_object, with_data, plain, nil, next, extract_rows,
}

-- `row[key]`; a missing key and an empty text are falsy alike.
unfoldable pub field : Word → Row → Text
field key [] = []
field key ((k, v) ∷ row) = let rest = field key row in if word_eq k key then v else rest

abbrev or_text : Text → Text → Text
or_text a b = if is_empty a then b else a

unfoldable pub address_of : Row → Text
unfolding field trim_codes
address_of row = trim_codes (or_text (field (codes "address") row) (field (codes "=address") row))

unfoldable pub to_lower_case : Text → Text
to_lower_case [] = []
to_lower_case (c ∷ s) = (if leb b'A' c && leb c b'Z' then c + 32 else c) ∷ to_lower_case s

unfoldable pub type_of : Row → Text
unfolding field trim_codes to_lower_case
type_of row =
    to_lower_case (trim_codes (or_text (field (codes "type") row) (field (codes "=type") row)))

unfoldable pub id_of : Row → Text
unfolding field trim_codes
id_of row = trim_codes (
    or_text (field (codes ".id") row) (or_text (field (codes "=.id") row) (field (codes "id") row)))

-- `/[^\w:./ -]/g`.
abbrev is_plain : ℕ → Bool
is_plain c =
    (leb b'0' c && leb c b'9')
    || (leb b'A' c && leb c b'Z')
    || (leb b'a' c && leb c b'z')
    || (c == b'_')
    || (c == b':')
    || (c == b'.')
    || (c == b'/')
    || (c == b' ')
    || (c == b'-')

abbrev dashed : Text → Text
dashed [] = []
dashed (c ∷ s) = (if is_plain c then c else b'-') ∷ dashed s

unfoldable pub sanitize_comment : Text → Text
unfolding remove_quotes trim_codes
sanitize_comment value = trim_codes (dashed (remove_quotes value))

abbrev pub print_binding : Text → Sentence
print_binding ip = codes "/ip/hotspot/ip-binding/print" ∷ (codes "?address=" ++ ip) ∷ []

unfoldable pub add_binding : Text → Text → Sentence
unfolding sanitize_comment
add_binding session_id ip =
    codes "/ip/hotspot/ip-binding/add"
    ∷ (codes "=address=" ++ ip)
    ∷ codes "=type=bypassed"
    ∷ (codes "=comment=" ++ sanitize_comment session_id)
    ∷ []

abbrev pub remove_binding : Text → Sentence
remove_binding binding_id =
    codes "/ip/hotspot/ip-binding/remove" ∷ (codes "=.id=" ++ binding_id) ∷ []

abbrev pub print_active : Text → Sentence
print_active ip = codes "/ip/hotspot/active/print" ∷ (codes "?address=" ++ ip) ∷ []

abbrev pub remove_active : Text → Sentence
remove_active active_id = codes "/ip/hotspot/active/remove" ∷ (codes "=.id=" ++ active_id) ∷ []

-- The result of the one command: whether it was served, and its `data`.
pub record CommandReply : Type 0 where
  pub ok : Bool
  pub data_rows : List Row

abbrev pub items_of : List Row → Items Row
items_of [] = nil
items_of (r ∷ rows) = next (plain r) (items_of rows)

-- `{ ok, results: [{ data }] }`, which `extractRows` takes for a row, too: one without an address.
unfoldable pub rows_of : CommandReply → List Row
unfolding extract_rows
rows_of r = extract_rows (an_object (next (with_data (items_of r.data_rows)) nil) (plain []))

abbrev pub is_bypassed : Text → Row → Bool
is_bypassed ip row = word_eq (address_of row) ip && word_eq (type_of row) (codes "bypassed")

unfoldable pub has_bypass : Text → List Row → Bool
unfolding address_of type_of
has_bypass ip [] = false
has_bypass ip (r ∷ rows) = let rest = has_bypass ip rows in is_bypassed ip r || rest

-- `findBindingByIp` and `findActiveByIp`, and then the row's id, empty where there is no row.
unfoldable pub id_by_ip : Text → List Row → Text
unfolding address_of id_of
id_by_ip ip [] = []
id_by_ip ip (r ∷ rows) =
    let rest = id_by_ip ip rows in if word_eq (address_of r) ip then id_of r else rest

pub data Outcome : Type 0 where
  threw already_authorized authorized not_found removed : Outcome

abbrev pub served_as : {S : Type 0} → Outcome → S × CommandReply → S × Outcome
served_as o (s, r) = if r.ok then (s, o) else (s, threw)

module _ {S : Type 0} (run : Sentence → S → S × CommandReply) (can_connect : Bool) where
  abbrev pub after_print : Text → Text → S × CommandReply → S × Outcome
  after_print session_id ip (s, r) =
      if not r.ok
      then (s, threw)
      else if has_bypass ip (rows_of r)
      then (s, already_authorized)
      else served_as authorized (run (add_binding session_id ip) s)

  unfoldable pub authorize_session_on_router : Text → Text → S → S × Outcome
  unfolding has_bypass rows_of add_binding
  authorize_session_on_router session_id ip s =
      if is_empty session_id || is_empty ip
      then (s, threw)
      else if not can_connect
      then (s, threw)
      else after_print session_id ip (run (print_binding ip) s)

  -- What `revokeSessionOnRouter` and `kickSession` share, with the sentence that removes an id.
  abbrev pub remove_found : (Text → Sentence) → Text → S × CommandReply → S × Outcome
  remove_found remove ip (s, r) =
      if not r.ok
      then (s, threw)
      else if is_empty (id_by_ip ip (rows_of r))
      then (s, not_found)
      else served_as removed (run (remove (id_by_ip ip (rows_of r))) s)

  unfoldable pub revoke_session_on_router : Text → Text → S → S × Outcome
  unfolding id_by_ip rows_of
  revoke_session_on_router session_id ip s =
      if is_empty session_id || is_empty ip
      then (s, threw)
      else if not can_connect
      then (s, threw)
      else remove_found remove_binding ip (run (print_binding ip) s)

  unfoldable pub kick_session : Text → Text → S → S × Outcome
  unfolding id_by_ip rows_of
  kick_session session_id ip s =
      if is_empty session_id || is_empty ip
      then (s, threw)
      else if not can_connect
      then (s, threw)
      else remove_found remove_active ip (run (print_active ip) s)

-- ===== src/Authorize/Commands.antt =====
-- src/services/paidClientAccess.js: the commands that grant and withdraw access. The two environment
-- variables are the record `PaidAccess`; a text that is blank after trimming stands for its default.
use relay_cerebro_infra.Base.{
  ℕ, String, Bool, true, false, ◌==◌, Option, none, some, List, [], ◌∷◌, ◌++◌, str_eq,
  if◌then◌else◌,
}
use relay_cerebro_infra.Base.Text.{is_space}
use relay_cerebro_infra.StateMachine.Mac.{codes}

abbrev pub Text : Type 0
Text = List ℕ

abbrev pub is_empty : Text → Bool
is_empty [] = true
is_empty (c ∷ s) = false

abbrev trim_left : Text → Text
trim_left [] = []
trim_left (c ∷ s) = let rest = trim_left s in if is_space c then rest else c ∷ s

abbrev trim_right : Text → Text
trim_right [] = []
trim_right (c ∷ s) =
    let rest = trim_right s in
    if is_empty rest then (if is_space c then [] else c ∷ []) else c ∷ rest

-- `trim`.
unfoldable pub trim_codes : Text → Text
unfolding is_space
trim_codes s = trim_left (trim_right s)

-- `replace(/"/g, "")`.
unfoldable pub remove_quotes : Text → Text
remove_quotes [] = []
remove_quotes (c ∷ s) = let rest = remove_quotes s in if c == b'"' then rest else c ∷ rest

abbrev pub or_unknown : Option String → Text
or_unknown none = codes "unknown"
or_unknown (some s) = if str_eq s "" then codes "unknown" else codes s

unfoldable pub safe_pedido_id : Option String → Text
unfolding trim_codes remove_quotes
safe_pedido_id pedido_id = trim_codes (remove_quotes (or_unknown pedido_id))

-- RELAY_PAID_CLIENTS_LIST and RELAY_PAID_BINDING_TYPE.
pub record PaidAccess : Type 0 where
  pub paid_clients_list : Text
  pub paid_binding_type : Text

abbrev or_default : Text → Text → Text
or_default s d = if is_empty s then d else s

unfoldable pub get_paid_list_name : PaidAccess → Text
unfolding trim_codes
get_paid_list_name a = or_default (trim_codes a.paid_clients_list) (codes "paid_clients")

unfoldable pub get_binding_type : PaidAccess → Text
unfolding trim_codes
get_binding_type a = or_default (trim_codes a.paid_binding_type) (codes "bypassed")

unfoldable pub build_authorize_commands : PaidAccess → Option String → Text → Text → List Text
unfolding safe_pedido_id get_paid_list_name get_binding_type
build_authorize_commands a pedido_id ip mac =
    let comment = codes "pedido:" ++ safe_pedido_id pedido_id in
    (codes "/ip firewall address-list add list="
      ++ get_paid_list_name a
      ++ codes " address="
      ++ ip
      ++ codes " comment=\""
      ++ comment
      ++ codes "\"")
    ∷ (codes "/ip hotspot ip-binding add mac-address="
        ++ mac
        ++ codes " address="
        ++ ip
        ++ codes " type="
        ++ get_binding_type a
        ++ codes " comment=\""
        ++ comment
        ++ codes "\"")
    ∷ (codes "/ip hotspot host remove [find mac-address=" ++ mac ++ codes "]")
    ∷ (codes "/ip hotspot active remove [find mac-address=" ++ mac ++ codes "]")
    ∷ []

abbrev revoke_ip : PaidAccess → Text → List Text
revoke_ip a ip =
    if is_empty ip
    then []
    else (codes "/ip firewall address-list remove [find list="
        ++ get_paid_list_name a
        ++ codes " address="
        ++ ip
        ++ codes "]")
      ∷ []

abbrev revoke_mac : Text → List Text
revoke_mac mac =
    if is_empty mac
    then []
    else (codes "/ip hotspot ip-binding remove [find mac-address=" ++ mac ++ codes "]")
      ∷ (codes "/ip hotspot active remove [find mac-address=" ++ mac ++ codes "]")
      ∷ (codes "/ip hotspot host remove [find mac-address=" ++ mac ++ codes "]")
      ∷ []

unfoldable pub build_revoke_commands : PaidAccess → Text → Text → List Text
unfolding get_paid_list_name
build_revoke_commands a ip mac = revoke_ip a ip ++ revoke_mac mac

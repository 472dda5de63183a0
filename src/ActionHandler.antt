-- ===== src/ActionHandler.antt =====
-- src/services/actionHandler.js: `executeAction`. The fields of a payload are texts, or absent; audit
-- and metrics are left out. An error is kept without its text.
mod Answers
mod Tests
use relay_cerebro_infra.Base.{
  ℕ, String, Bool, true, false, not, ◌&&◌, ◌||◌, Option, none, some, List, [], ◌∷◌, str_eq,
  if◌then◌else◌, truthy,
}
use relay_cerebro_infra.Errors.{Err}
use relay_cerebro_infra.Authorize.Commands.{PaidAccess}
use relay_cerebro_infra.Authorize.{
  Attempt, returned, threw, Node, Nodes, Session, Granting, Device, get_mik_by_id,
  authorize_by_pedido, authorize_by_pedido_ip, resync_device, revoke_by_session, text_of,
}

pub record Payload : Type 0 where
  pub device_token : Option String
  pub pedido_id : Option String
  pub mik_id : Option String
  pub ip_atual : Option String
  pub mac_atual : Option String
  pub ip : Option String
  pub mac : Option String

-- The keys of `ACTIONS`.
pub data Action : Type 0 where
  authorize_action resync_action revoke_action : Action

abbrev pub action_of : String → Option Action
action_of name =
    if str_eq name "AUTHORIZE_BY_PEDIDO"
    then some authorize_action
    else if str_eq name "RESYNC_DEVICE"
    then some resync_action
    else if str_eq name "REVOKE_SESSION"
    then some revoke_action
    else none

pub data Response : Type 0 where
  rejected forbidden failed : Response
  succeeded : Granting → Response

-- A device token, or else the order, the router and the address.
abbrev pub names_client : Payload → Bool
names_client p =
    if truthy p.device_token
    then true
    else truthy p.pedido_id && truthy p.mik_id && truthy p.ip_atual && truthy p.mac_atual

-- `validatePayload` does not throw.
unfoldable pub validate_payload : Action → Payload → Bool
validate_payload authorize_action p = names_client p
validate_payload resync_action p = names_client p
validate_payload revoke_action p = truthy p.mik_id && (truthy p.ip || truthy p.mac)

abbrev pub response_of : Attempt Granting → Response
response_of (returned g) = succeeded g
response_of (threw e) = failed

abbrev pub if_found : Attempt Node → Response → Response
if_found (returned n) r = r
if_found (threw e) r = failed

module _ (run : Session) (env : Nodes) (access : PaidAccess) (devices : List Device) where
  abbrev authorize_address : Payload → Attempt Granting
  authorize_address p =
      authorize_by_pedido_ip run env access p.pedido_id p.mik_id p.ip_atual p.mac_atual

  -- The mapped function.
  unfoldable pub call_mapped : Action → Payload → Attempt Granting
  unfolding authorize_by_pedido authorize_by_pedido_ip resync_device revoke_by_session
  call_mapped authorize_action p =
      if truthy p.device_token
      then authorize_by_pedido run env access devices p.pedido_id p.mik_id (text_of p.device_token)
      else authorize_address p
  call_mapped resync_action p =
      if truthy p.device_token
      then resync_device run env access devices p.pedido_id p.mik_id (text_of p.device_token)
          p.ip_atual p.mac_atual
      else authorize_address p
  call_mapped revoke_action p = revoke_by_session run env access p.mik_id p.ip p.mac

  -- From the validation on.
  unfoldable pub execute_valid : Action → Payload → Response
  unfolding validate_payload call_mapped get_mik_by_id
  execute_valid action p =
      if not (validate_payload action p)
      then failed
      else if truthy p.mik_id
      then if_found (get_mik_by_id (text_of p.mik_id) env) (response_of (call_mapped action p))
      else response_of (call_mapped action p)

  abbrev pub execute_known : Option Action → Payload → Response
  execute_known none p = forbidden
  execute_known (some action) p = execute_valid action p

  unfoldable pub execute_action : Option String → Payload → Response
  unfolding execute_valid
  execute_action action p =
      if truthy action then execute_known (action_of (text_of action)) p else rejected

-- ===== src/ActionHandler/Answers.antt =====
-- src/services/actionHandler.js: what the answer of `executeAction` depends on.
use relay_cerebro_infra.Base.{
  String, Bool, true, false, not, ◌&&◌, ◌||◌, Option, none, some, List, ◌≡◌, refl, if◌then◌else◌,
  truthy,
}
use relay_cerebro_infra.Authorize.Commands.{
  PaidAccess, Text, is_empty, build_authorize_commands, build_revoke_commands,
}
use relay_cerebro_infra.Authorize.{
  Attempt, returned, threw, Node, Nodes, Session, Granting, Device, send_to, get_mik_by_id,
  get_device_by_token, authorize_device, authorize_by_pedido, authorize_by_pedido_ip, resync_copy,
  resync_device, revoke_by_session, text_of, normalize_ip, normalize_mac,
}
use relay_cerebro_infra.ActionHandler.{
  Payload, Action, authorize_action, resync_action, revoke_action, action_of, Response, rejected,
  forbidden, failed, succeeded, response_of, if_found, validate_payload, call_mapped, execute_valid,
  execute_known, execute_action,
}

-- Whether the answer has ok: true.
abbrev pub is_ok : Response → Bool
is_ok rejected = false
is_ok forbidden = false
is_ok failed = false
is_ok (succeeded g) = true

abbrev has_returned : Attempt Granting → Bool
has_returned x = is_ok (response_of x)

if_same :
    {A : Type 0} (f : A → Bool) (b : Bool) (x y u v : A)
    → f x ≡ f u
    → f y ≡ f v
    → f (if b then x else y) ≡ f (if b then u else v)
if_same f true x y u v h k = h
if_same f false x y u v h k = k

module _ (run other : Session) (env : Nodes) (access : PaidAccess) where
  send-same :
      (m : Option String) (ip mac : Text) (cs : List Text) (n : Attempt Node)
      → has_returned (send_to run env access m ip mac cs n)
        ≡ has_returned (send_to other env access m ip mac cs n)
  unfolding send_to
  send-same m ip mac cs (threw e) = refl
  send-same m ip mac cs (returned n) = refl

  address-same :
      (pedido mik ip mac : Option String)
      → has_returned (authorize_by_pedido_ip run env access pedido mik ip mac)
        ≡ has_returned (authorize_by_pedido_ip other env access pedido mik ip mac)
  unfolding authorize_by_pedido_ip
  address-same pedido mik ip mac =
      if_same has_returned
        (not (truthy pedido)
          || not (truthy mik)
          || is_empty (normalize_ip ip)
          || is_empty (normalize_mac mac))
        _ _ _ _ refl
        (send-same mik (normalize_ip ip) (normalize_mac mac)
          (build_authorize_commands access pedido (normalize_ip ip) (normalize_mac mac))
          (get_mik_by_id (text_of mik) env))

  device-same :
      (pedido mik : Option String) (d : Option Device)
      → has_returned (authorize_device run env access pedido mik d)
        ≡ has_returned (authorize_device other env access pedido mik d)
  unfolding authorize_device
  device-same pedido mik none = refl
  device-same pedido mik (some d) =
      if_same has_returned
        (is_empty (normalize_ip d.ip_atual) || is_empty (normalize_mac d.mac_atual)) _ _ _ _ refl
        (send-same mik (normalize_ip d.ip_atual) (normalize_mac d.mac_atual)
          (build_authorize_commands access pedido (normalize_ip d.ip_atual)
            (normalize_mac d.mac_atual))
          (get_mik_by_id (text_of mik) env))

  module _ (devices : List Device) where
    token-same :
        (pedido mik : Option String) (token : String)
        → has_returned (authorize_by_pedido run env access devices pedido mik token)
          ≡ has_returned (authorize_by_pedido other env access devices pedido mik token)
    unfolding authorize_by_pedido
    token-same pedido mik token = device-same pedido mik (get_device_by_token token devices)

    copy-same :
        (pedido mik : Option String) (token : String) (ip mac : Option String) (d : Option Device)
        → has_returned (resync_copy run env access devices pedido mik token ip mac d)
          ≡ has_returned (resync_copy other env access devices pedido mik token ip mac d)
    copy-same pedido mik token ip mac none = refl
    copy-same pedido mik token ip mac (some d) = token-same pedido mik token

    resync-same :
        (pedido mik : Option String) (token : String) (ip mac : Option String)
        → has_returned (resync_device run env access devices pedido mik token ip mac)
          ≡ has_returned (resync_device other env access devices pedido mik token ip mac)
    unfolding resync_device
    resync-same pedido mik token ip mac =
        copy-same pedido mik token ip mac (get_device_by_token token devices)

    mapped-same :
        (a : Action) (p : Payload)
        → has_returned (call_mapped run env access devices a p)
          ≡ has_returned (call_mapped other env access devices a p)
    unfolding call_mapped revoke_by_session
    mapped-same authorize_action p =
        if_same has_returned (truthy p.device_token) _ _ _ _
          (token-same p.pedido_id p.mik_id (text_of p.device_token))
          (address-same p.pedido_id p.mik_id p.ip_atual p.mac_atual)
    mapped-same resync_action p =
        if_same has_returned (truthy p.device_token) _ _ _ _
          (resync-same p.pedido_id p.mik_id (text_of p.device_token) p.ip_atual p.mac_atual)
          (address-same p.pedido_id p.mik_id p.ip_atual p.mac_atual)
    mapped-same revoke_action p =
        if_same has_returned
          (not (truthy p.mik_id)
            || (is_empty (normalize_ip p.ip) && is_empty (normalize_mac p.mac)))
          _ _ _ _ refl
          (send-same p.mik_id (normalize_ip p.ip) (normalize_mac p.mac)
            (build_revoke_commands access (normalize_ip p.ip) (normalize_mac p.mac))
            (get_mik_by_id (text_of p.mik_id) env))

    found-same :
        (n : Attempt Node) (r s : Response)
        → is_ok r ≡ is_ok s
        → is_ok (if_found n r) ≡ is_ok (if_found n s)
    found-same (returned n) r s h = h
    found-same (threw e) r s h = refl

    valid-same :
        (a : Action) (p : Payload)
        → is_ok (execute_valid run env access devices a p)
          ≡ is_ok (execute_valid other env access devices a p)
    unfolding execute_valid
    valid-same a p = if_same is_ok (not (validate_payload a p)) _ _ _ _ refl (
        if_same is_ok (truthy p.mik_id) _ _ _ _
          (found-same (get_mik_by_id (text_of p.mik_id) env) _ _ (mapped-same a p))
          (mapped-same a p))

    known-same :
        (a : Option Action) (p : Payload)
        → is_ok (execute_known run env access devices a p)
          ≡ is_ok (execute_known other env access devices a p)
    known-same none p = refl
    known-same (some a) p = valid-same a p

-- Whether `executeAction` answers with ok: true does not depend on what the router does: it answers the
-- same for any two ways `run` and `other` in which sessions with routers may go, be it that one serves
-- every command and the other none.
pub execute_action-blind :
    (run other : Session) (env : Nodes) (access : PaidAccess) (devices : List Device)
    (action : Option String) (p : Payload)
    → is_ok (execute_action run env access devices action p)
      ≡ is_ok (execute_action other env access devices action p)
unfolding execute_action
execute_action-blind run other env access devices action p =
    if_same is_ok (truthy action) _ _ _ _
      (known-same run other env access devices (action_of (text_of action)) p) refl

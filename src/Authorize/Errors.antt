-- ===== src/Authorize/Errors.antt =====
-- src/services/authorize.js: what `authorizeByPedidoIp` throws, and `resyncDevice`.
use relay_cerebro_infra.Base.{
  String, Bool, true, false, not, ◌||◌, Option, some, List, [], ◌∷◌, ◌≡◌, ◌≢◌, refl, arith, str_eq,
  if◌then◌else◌, truthy, Bool-cases, inl, inr, ap, ◌∙◌, subst,
}
use relay_cerebro_infra.Errors.{Err, transient, classify_error}
use relay_cerebro_infra.Authorize.Commands.{PaidAccess, is_empty, Text, build_authorize_commands}
use relay_cerebro_infra.Authorize.{
  Attempt, returned, threw, Node, Nodes, not_configured, invalid_json, nodes, Session, Granting,
  Device, plain_error, find_node, get_mik_by_id, send_to, normalize_ip, normalize_mac,
  authorize_by_pedido_ip, authorize_device, authorize_by_pedido, resync_copy, resync_device,
  get_device_by_token, text_of,
}

abbrev Calm : Attempt Granting → Type 0
Calm (returned g) = Unit {0}
Calm (threw e) = (classify_error (some e)).class_of ≢ transient

find_node-Calm :
    (mik_id : String) (l : List Node) (run : Session) (env : Nodes) (access : PaidAccess)
    (m : Option String) (ip mac : Text) (cs : List Text)
    → Calm (send_to run env access m ip mac cs (find_node mik_id l))
unfolding send_to classify_error
find_node-Calm mik_id [] run env access m ip mac cs = λ h. absurd (ground arith)
find_node-Calm mik_id (n ∷ l) run env access m ip mac cs = elim (Bool-cases (str_eq n.id mik_id)) [
  | inl same ↦ rw (same) tt
  | inr other ↦ rw (other) (find_node-Calm mik_id l run env access m ip mac cs)
]

send_to-Calm :
    (mik_id : String) (run : Session) (env : Nodes) (access : PaidAccess) (m : Option String)
    (ip mac : Text) (cs : List Text)
    → Calm (send_to run env access m ip mac cs (get_mik_by_id mik_id env))
unfolding send_to classify_error get_mik_by_id
send_to-Calm mik_id run not_configured access m ip mac cs = λ h. absurd (ground arith)
send_to-Calm mik_id run invalid_json access m ip mac cs = λ h. absurd (ground arith)
send_to-Calm mik_id run (nodes all) access m ip mac cs =
    find_node-Calm mik_id all run (nodes all) access m ip mac cs

if-Calm :
    (b : Bool) (message : String) (x : Attempt Granting)
    → Calm x
    → Calm (if b then threw (plain_error message) else x)
unfolding classify_error
if-Calm true message x h = λ k. absurd (ground arith)
if-Calm false message x h = h

authorize-Calm :
    (run : Session) (env : Nodes) (access : PaidAccess) (pedido_id mik_id ip mac : Option String)
    → Calm (authorize_by_pedido_ip run env access pedido_id mik_id ip mac)
unfolding authorize_by_pedido_ip
authorize-Calm run env access pedido_id mik_id ip mac =
    if-Calm
      (not (truthy pedido_id)
        || not (truthy mik_id)
        || is_empty (normalize_ip ip)
        || is_empty (normalize_mac mac))
      _ _
      (send_to-Calm (text_of mik_id) run env access mik_id (normalize_ip ip) (normalize_mac mac)
        (build_authorize_commands access pedido_id (normalize_ip ip) (normalize_mac mac)))

-- Whatever the router does, be it unreachable, `authorizeByPedidoIp` throws no error that is classified
-- as transient.
pub authorize-never_transient :
    (run : Session) (env : Nodes) (access : PaidAccess) (pedido_id mik_id ip mac : Option String)
    (e : Err)
    → authorize_by_pedido_ip run env access pedido_id mik_id ip mac ≡ threw e
    → (classify_error (some e)).class_of ≢ transient
authorize-never_transient run env access pedido_id mik_id ip mac e h =
    subst Calm h (authorize-Calm run env access pedido_id mik_id ip mac)

authorize-on_file :
    (run : Session) (env : Nodes) (access : PaidAccess) (devices : List Device)
    (pedido_id mik_id : Option String) (token : String) (d : Device)
    → get_device_by_token token devices ≡ some d
    → is_empty (normalize_ip d.ip_atual) ≡ false
    → is_empty (normalize_mac d.mac_atual) ≡ false
    → truthy pedido_id ≡ true
    → truthy mik_id ≡ true
    → authorize_by_pedido run env access devices pedido_id mik_id token
      ≡ authorize_by_pedido_ip run env access pedido_id mik_id d.ip_atual d.mac_atual
unfolding authorize_by_pedido authorize_device authorize_by_pedido_ip
authorize-on_file run env access devices pedido_id mik_id token d found has_ip has_mac asked
      routed =
    rw (found, asked, routed, has_ip, has_mac) refl

-- The resynchronization of a device that has an address on file answers as `authorizeByPedidoIp` does
-- for that address on file, whatever the new address `ip` and `mac` that it is given.
pub resync_device-ignores_address :
    (run : Session) (env : Nodes) (access : PaidAccess) (devices : List Device)
    (pedido_id mik_id : Option String) (token : String) (ip mac : Option String) (d : Device)
    → get_device_by_token token devices ≡ some d
    → is_empty (normalize_ip d.ip_atual) ≡ false
    → is_empty (normalize_mac d.mac_atual) ≡ false
    → truthy pedido_id ≡ true
    → truthy mik_id ≡ true
    → resync_device run env access devices pedido_id mik_id token ip mac
      ≡ authorize_by_pedido_ip run env access pedido_id mik_id d.ip_atual d.mac_atual
unfolding resync_device
resync_device-ignores_address run env access devices pedido_id mik_id token ip mac d found has_ip
      has_mac asked routed =
    ap (resync_copy run env access devices pedido_id mik_id token ip mac) found
    ∙ authorize-on_file run env access devices pedido_id mik_id token d found has_ip has_mac asked
        routed

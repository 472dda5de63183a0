-- ===== src/Authorize.antt =====
-- Access at a router by its MikroTik API: src/services/authorize.js, src/services/paidClientAccess.js,
-- src/services/mikrotik.js and getMikById of src/config/mikrotiks.js. Texts are lists of characters'
-- codes, and letters outside ASCII have no case. A session with a router (`runCommands`) is a
-- parameter: it gives the results of the commands or throws. A device that `getDeviceByToken` gives is
-- a copy, as the registry parses its file at each call.
pub mod Commands
pub mod Errors
mod Tests
use relay_cerebro_infra.Base.{
  ℕ, String, Bool, true, false, not, ◌&&◌, ◌||◌, Option, none, some, List, [], ◌∷◌, ◌++◌, str_eq,
  if◌then◌else◌, truthy,
}
use relay_cerebro_infra.StateMachine.Mac.{codes, to_upper_case}
use relay_cerebro_infra.Errors.{Err}
use relay_cerebro_infra.Authorize.Commands.{
  Text, trim_codes, is_empty, PaidAccess, build_authorize_commands, build_revoke_commands,
}

-- A node of MIKROTIK_NODES.
pub record Node : Type 0 where
  pub id : String
  pub host : Option String
  pub ip : Option String
  pub user : Option String
  pub username : Option String
  pub pass : Option String
  pub password : Option String

pub data Nodes : Type 0 where
  not_configured invalid_json : Nodes
  nodes : List Node → Nodes

abbrev pub coded_error : String → Err
coded_error code = record { code = some code; raw = code; name = "Error" }

abbrev pub plain_error : String → Err
plain_error message = record { code = none; raw = message; name = "Error" }

pub data Attempt (A : Type 0) : Type 0 where
  returned : A → Attempt A
  threw : Err → Attempt A

abbrev find_node : String → List Node → Attempt Node
find_node mik_id [] = threw (coded_error "MIKROTIK_NODE_NOT_FOUND")
find_node mik_id (n ∷ rest) = if str_eq n.id mik_id then returned n else find_node mik_id rest

unfoldable pub get_mik_by_id : String → Nodes → Attempt Node
get_mik_by_id mik_id not_configured = threw (coded_error "MIKROTIK_NODES_NOT_CONFIGURED")
get_mik_by_id mik_id invalid_json = threw (coded_error "MIKROTIK_NODES_INVALID_JSON")
get_mik_by_id mik_id (nodes all) = find_node mik_id all

-- A command and whether the router has served it.
pub record CommandResult : Type 0 where
  pub cmd : Text
  pub ok : Bool

pub record RouterResult : Type 0 where
  pub ok : Bool
  pub results : List CommandResult

-- `runCommands` at a node.
abbrev pub Session : Type 0
Session = Node → List Text → Attempt (List CommandResult)

-- `normalizeCommand` of texts, without those that are empty.
unfoldable pub normalize_commands : List Text → List Text
unfolding trim_codes
normalize_commands [] = []
normalize_commands (s ∷ rest) =
    let kept = normalize_commands rest in
    if is_empty (trim_codes s) then kept else trim_codes s ∷ kept

abbrev pub all_ok : List CommandResult → Bool
all_ok [] = true
all_ok (r ∷ rest) = let served = all_ok rest in r.ok && served

abbrev pub all_failed : List Text → List CommandResult
all_failed [] = []
all_failed (c ∷ rest) = record { cmd = c; ok = false } ∷ all_failed rest

abbrev either_truthy : Option String → Option String → Bool
either_truthy a b = truthy a || truthy b

-- `normalizeMikConfig` does not throw.
abbrev pub is_configured : Node → Bool
is_configured n =
    either_truthy n.host n.ip && either_truthy n.user n.username && either_truthy n.pass n.password

abbrev pub session_result : List Text → Attempt (List CommandResult) → RouterResult
session_result commands (returned results) = record { ok = all_ok results; results = results }
session_result commands (threw e) = record { ok = false; results = all_failed commands }

abbrev run_normalized : Session → Node → List Text → RouterResult
run_normalized run mik [] = record { ok = true; results = [] }
run_normalized run mik (c ∷ rest) =
    if is_configured mik
    then session_result (c ∷ rest) (run mik (c ∷ rest))
    else record { ok = false; results = all_failed (c ∷ rest) }

unfoldable pub run_mikrotik_commands : Session → Node → List Text → RouterResult
unfolding normalize_commands
run_mikrotik_commands run mik sentences = run_normalized run mik (normalize_commands sentences)

-- `normalizeMac` and `normalizeIp`; null is the empty text.
unfoldable pub normalize_mac : Option String → Text
unfolding trim_codes to_upper_case
normalize_mac none = []
normalize_mac (some mac) = to_upper_case (trim_codes (codes mac))

unfoldable pub normalize_ip : Option String → Text
unfolding trim_codes
normalize_ip none = []
normalize_ip (some ip) = trim_codes (codes ip)

-- What the functions return: the address used, and what the router has answered.
pub record Granting : Type 0 where
  pub ok : Bool
  pub mik_id : Option String
  pub ip : Text
  pub mac : Text
  pub mikrotik : RouterResult

pub record Device : Type 0 where
  pub token : String
  pub mik_id : Option String
  pub ip_atual : Option String
  pub mac_atual : Option String

unfoldable pub get_device_by_token : String → List Device → Option Device
get_device_by_token token [] = none
get_device_by_token token (d ∷ rest) =
    let found = get_device_by_token token rest in
    if str_eq token "" then none else if str_eq d.token token then some d else found

abbrev pub text_of : Option String → String
text_of none = ""
text_of (some s) = s

-- src/registry/deviceRegistry.js: its file, and the objects of the last `readAll`, which
-- `getDeviceByToken` gives its caller one of.
pub record Registry : Type 0 where
  pub file : List Device
  pub objects : List Device

-- `readAll` parses the file into new objects.
abbrev pub read_all : Registry → Registry
read_all r = record r { objects = r.file }

abbrev assign_found : String → Option String → Option String → List Device → List Device
assign_found token ip_atual mac_atual [] = []
assign_found token ip_atual mac_atual (d ∷ rest) =
    let others = assign_found token ip_atual mac_atual rest in
    if str_eq d.token token
    then record d { ip_atual = ip_atual; mac_atual = mac_atual } ∷ rest
    else d ∷ others

-- The assignments to the object that `getDeviceByToken` has found.
abbrev pub assign_device : String → Option String → Option String → Registry → Registry
assign_device token ip_atual mac_atual r = record r {
  objects = assign_found token ip_atual mac_atual r.objects;
}

module _ (run : Session) (env : Nodes) (access : PaidAccess) where
  -- The commands, sent to the router of this id.
  unfoldable pub send_to : Option String → Text → Text → List Text → Attempt Node → Attempt Granting
  unfolding run_mikrotik_commands
  send_to mik_id ip mac commands (threw e) = threw e
  send_to mik_id ip mac commands (returned mik) =
      let result = run_mikrotik_commands run mik commands in
      returned (record { ok = result.ok; mik_id = mik_id; ip = ip; mac = mac; mikrotik = result })

  unfoldable pub authorize_by_pedido_ip :
      Option String → Option String → Option String → Option String → Attempt Granting
  unfolding normalize_ip normalize_mac build_authorize_commands send_to get_mik_by_id
  authorize_by_pedido_ip pedido_id mik_id ip_atual mac_atual =
      let ip = normalize_ip ip_atual in
      let mac = normalize_mac mac_atual in
      if not (truthy pedido_id) || not (truthy mik_id) || is_empty ip || is_empty mac
      then threw (plain_error "Campos obrigatórios: pedidoId, mikId, ipAtual, macAtual")
      else send_to mik_id ip mac (build_authorize_commands access pedido_id ip mac)
          (get_mik_by_id (text_of mik_id) env)

  unfoldable pub authorize_device : Option String → Option String → Option Device → Attempt Granting
  unfolding normalize_ip normalize_mac build_authorize_commands send_to get_mik_by_id
  authorize_device pedido_id mik_id none = threw (plain_error "deviceToken não encontrado no relay")
  authorize_device pedido_id mik_id (some d) =
      let ip = normalize_ip d.ip_atual in
      let mac = normalize_mac d.mac_atual in
      if is_empty ip || is_empty mac
      then threw (plain_error "Device sem ip/mac atual")
      else send_to mik_id ip mac (build_authorize_commands access pedido_id ip mac)
          (get_mik_by_id (text_of mik_id) env)

  unfoldable pub authorize_by_pedido :
      List Device → Option String → Option String → String → Attempt Granting
  unfolding get_device_by_token authorize_device
  authorize_by_pedido devices pedido_id mik_id device_token =
      authorize_device pedido_id mik_id (get_device_by_token device_token devices)

  -- What follows the first `getDeviceByToken` of `resyncDevice`.
  abbrev pub resync_copy :
      List Device
      → Option String
      → Option String
      → String
      → Option String
      → Option String
      → Option Device
      → Attempt Granting
  resync_copy devices pedido_id mik_id device_token ip_atual mac_atual none =
      threw (plain_error "deviceToken não encontrado no relay")
  resync_copy devices pedido_id mik_id device_token ip_atual mac_atual (some d) =
      let read = read_all (record { file = devices; objects = [] }) in
      let written = assign_device device_token ip_atual mac_atual read in
      authorize_by_pedido (read_all written).objects pedido_id mik_id device_token

  unfoldable pub resync_device :
      List Device
      → Option String
      → Option String
      → String
      → Option String
      → Option String
      → Attempt Granting
  unfolding get_device_by_token authorize_by_pedido
  resync_device devices pedido_id mik_id device_token ip_atual mac_atual =
      resync_copy devices pedido_id mik_id device_token ip_atual mac_atual
        (get_device_by_token device_token devices)

  unfoldable pub revoke_by_session :
      Option String → Option String → Option String → Attempt Granting
  unfolding normalize_ip normalize_mac build_revoke_commands send_to get_mik_by_id
  revoke_by_session mik_id ip mac =
      let ip_norm = normalize_ip ip in
      let mac_norm = normalize_mac mac in
      if not (truthy mik_id) || (is_empty ip_norm && is_empty mac_norm)
      then threw (plain_error "Campos obrigatórios: mikId e (ip ou mac)")
      else send_to mik_id ip_norm mac_norm (build_revoke_commands access ip_norm mac_norm)
          (get_mik_by_id (text_of mik_id) env)

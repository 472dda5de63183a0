-- ===== src/ActionHandler/Tests.antt =====
-- src/services/actionHandler.js at a router that serves every command and at one that serves none.
use relay_cerebro_infra.Base.{true, none, some, List, [], ◌∷◌, ◌≡◌, refl}
use relay_cerebro_infra.Authorize.Commands.{PaidAccess, Text}
use relay_cerebro_infra.Authorize.{
  returned, threw, Node, nodes, Session, CommandResult, all_failed, plain_error,
}
use relay_cerebro_infra.ActionHandler.{Payload, execute_action}
use relay_cerebro_infra.ActionHandler.Answers.{is_ok, execute_action-blind}

abbrev hotspot : Node
hotspot = record {
  id = "r1";
  host = some "10.200.1.10";
  ip = none;
  user = some "relay";
  username = none;
  pass = some "x";
  password = none;
}

abbrev serve_all : List Text → List CommandResult
serve_all [] = []
serve_all (c ∷ cs) = record { cmd = c; ok = true } ∷ serve_all cs

abbrev serving : Session
serving node commands = returned (serve_all commands)

abbrev refusing : Session
refusing node commands = returned (all_failed commands)

abbrev unreachable : Session
unreachable node commands = threw (plain_error "RouterOS API timeout")

abbrev defaults : PaidAccess
defaults = record { paid_clients_list = []; paid_binding_type = [] }

abbrev release : Payload
release = record {
  device_token = none;
  pedido_id = some "p1";
  mik_id = some "r1";
  ip_atual = some "10.0.0.2";
  mac_atual = some "aa:bb:cc:dd:ee:ff";
  ip = none;
  mac = none;
}

unreachable_ok :
    is_ok (
      execute_action unreachable
        (nodes (hotspot ∷ []))
        defaults
        []
        (some "AUTHORIZE_BY_PEDIDO")
        release)
    ≡ true
unfolding execute_action
unreachable_ok = refl

execute_action-blind_example :
    is_ok (
      execute_action refusing
        (nodes (hotspot ∷ []))
        defaults
        []
        (some "AUTHORIZE_BY_PEDIDO")
        release)
    ≡ is_ok (
        execute_action serving
          (nodes (hotspot ∷ []))
          defaults
          []
          (some "AUTHORIZE_BY_PEDIDO")
          release)
execute_action-blind_example =
    execute_action-blind refusing serving (nodes (hotspot ∷ [])) defaults []
      (some "AUTHORIZE_BY_PEDIDO") release

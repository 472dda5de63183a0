-- ===== src/Authorize/Tests.antt =====
-- src/services/authorize.js at a concrete router.
use relay_cerebro_infra.Base.{true, none, some, List, [], ◌∷◌, ◌≡◌, refl}
use relay_cerebro_infra.StateMachine.Mac.{codes}
use relay_cerebro_infra.Authorize.Commands.{PaidAccess, Text, build_revoke_commands}
use relay_cerebro_infra.Authorize.{
  returned, Node, nodes, Session, CommandResult, Device, authorize_by_pedido_ip, resync_device,
}
use relay_cerebro_infra.Authorize.Errors.{resync_device-ignores_address}

abbrev hotspot : Node
hotspot = record {
  id = "r1";
  host = some "10.200.1.10";
  ip = none;
  user = some "relay";
  username = none;
  pass = some "x";
  password = none;
}

abbrev serve_all : List Text → List CommandResult
serve_all [] = []
serve_all (c ∷ cs) = record { cmd = c; ok = true } ∷ serve_all cs

abbrev serving : Session
serving node commands = returned (serve_all commands)

abbrev defaults : PaidAccess
defaults = record { paid_clients_list = []; paid_binding_type = [] }

abbrev on_file : Device
on_file = record {
  token = "t1";
  mik_id = some "r1";
  ip_atual = some "10.0.0.2";
  mac_atual = some "aa:bb:cc:dd:ee:ff";
}

revoke_commands :
    build_revoke_commands defaults (codes "10.0.0.2") []
    ≡ codes "/ip firewall address-list remove [find list=paid_clients address=10.0.0.2]" ∷ []
unfolding build_revoke_commands
revoke_commands = refl

resync_device-ignores_address_example :
    resync_device serving
      (nodes (hotspot ∷ []))
      defaults
      (on_file ∷ [])
      (some "p1")
      (some "r1")
      "t1"
      (some "10.0.0.9")
      (some "00:00:00:00:00:09")
    ≡ authorize_by_pedido_ip serving
        (nodes (hotspot ∷ []))
        defaults
        (some "p1")
        (some "r1")
        (some "10.0.0.2")
        (some "aa:bb:cc:dd:ee:ff")
unfolding resync_device
resync_device-ignores_address_example =
    resync_device-ignores_address serving (nodes (hotspot ∷ [])) defaults (on_file ∷ []) (some "p1")
      (some "r1") "t1" (some "10.0.0.9") (some "00:00:00:00:00:09") on_file refl refl refl refl refl

-- ===== src/StateMachine/Validate.antt =====
-- src/services/stateMachine.js: the validation of an event.
use relay_cerebro_infra.Base.{
  String, Bool, true, false, not, ◌&&◌, ◌||◌, Option, none, some, str_eq, truthy, if◌then◌else◌,
}
use relay_cerebro_infra.StateMachine.{
  Field, absent, text, other, is_true, Payload, EventType, trial_requested, release_requested,
  revoke_requested, payment_confirmed, unknown_type, Event,
}
use relay_cerebro_infra.StateMachine.Mac.{is_valid_mac}

-- `requireString`: whether it returns.
abbrev pub require_string : Field → Bool
require_string (text s) = not (str_eq s "")
require_string _ = false

-- `isValidMac` of a value that `requireString` has passed.
abbrev pub has_valid_mac : Field → Bool
has_valid_mac (text s) = is_valid_mac s
has_valid_mac _ = false

-- `getMikById`, where the payload names a router.
abbrev pub router_exists : (String → Bool) → Field → Bool
router_exists known (text s) = if str_eq s "" then true else known s
router_exists known absent = true
router_exists known (other b) = not b

abbrev pub valid_access : Payload → Bool
valid_access p =
    require_string p.pedido_id
    && require_string p.mik_id
    && require_string p.ip
    && require_string p.mac
    && has_valid_mac p.mac

abbrev pub optional_string : Field → Bool
optional_string f = if is_true f then require_string f else true

abbrev pub valid_revoke : Payload → Bool
valid_revoke p =
    require_string p.mik_id
    && (is_true p.ip || is_true p.mac)
    && optional_string p.ip
    && (if is_true p.mac then require_string p.mac && has_valid_mac p.mac else true)

abbrev pub valid_payment : Payload → Bool
valid_payment p = require_string p.sid && require_string p.pedido_id && optional_string p.router_id

abbrev pub valid_payload : EventType → Payload → Bool
valid_payload trial_requested p = valid_access p
valid_payload release_requested p = valid_access p
valid_payload revoke_requested p = valid_revoke p
valid_payload payment_confirmed p = valid_payment p
valid_payload (unknown_type t) p = true

abbrev pub or_text : Option String → Option String
or_text o = if truthy o then o else none

abbrev pub valid_parts :
    (String → Bool) → Option String → Option EventType → Payload → Option (String × EventType)
valid_parts known (some id) (some t) p =
    if router_exists known p.mik_id && valid_payload t p then some (id, t) else none
valid_parts known (some id) none p = none
valid_parts known none t p = none

-- The id and the type of an event that passes the validation.
unfoldable pub validate : (String → Bool) → Event → Option (String × EventType)
validate known e = valid_parts known (or_text e.event_id) e.event_type e.payload

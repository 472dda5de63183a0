-- ===== src/Errors.antt =====
-- src/services/errors/normalizeMikrotikError.js and src/services/errors/classifyError.js: the code
-- that an error of a router gets, and the class of a code. An error that is missing altogether is
-- `none`; `raw` is its `message`, or its text where that is empty.
mod Laws
mod Tests
use relay_cerebro_infra.Base.{
  ℕ, ◌+◌, ◌*◌, String, Bool, true, false, ◌&&◌, ◌||◌, Option, none, some, List, [], ◌∷◌, leb, ◌==◌,
  str_eq, truthy, if◌then◌else◌,
}
use relay_cerebro_infra.StateMachine.Mac.{codes}

pub record Err : Type 0 where
  pub code : Option String
  pub raw : String
  pub name : String

-- `toLowerCase`. Letters outside ASCII are left as they are: none of them has a lower case that
-- completes one of the phrases below.
unfoldable pub to_lower_case : List ℕ → List ℕ
to_lower_case [] = []
to_lower_case (c ∷ s) = (if leb b'A' c && leb c b'Z' then c + 32 else c) ∷ to_lower_case s

unfoldable pub starts_with : List ℕ → List ℕ → Bool
starts_with [] s = true
starts_with (p ∷ pattern) [] = false
starts_with (p ∷ pattern) (c ∷ s) = let rest = starts_with pattern s in (p == c) && rest

unfoldable pub includes : List ℕ → List ℕ → Bool
unfolding starts_with
includes pattern [] = starts_with pattern []
includes pattern (c ∷ s) = let rest = includes pattern s in starts_with pattern (c ∷ s) || rest

unfoldable pub says : String → Err → Bool
unfolding includes to_lower_case
says phrase e = includes (codes phrase) (to_lower_case (codes e.raw))

abbrev pub is_code : String → Option String → Bool
is_code c none = false
is_code c (some d) = str_eq c d

unfoldable pub is_setup_code : Option String → Bool
unfolding starts_with
is_setup_code none = false
is_setup_code (some c) =
    starts_with (codes "MIKROTIK_NODES_") (codes c) || str_eq c "MIKROTIK_NODE_NOT_FOUND"

unfoldable pub is_auth_failure : Err → Bool
unfolding says
is_auth_failure e =
    says "invalid user" e
    || (says "password" e && says "invalid" e)
    || says "authentication failed" e
    || says "login failure" e
    || says "not logged in" e

unfoldable pub is_denied : Err → Bool
unfolding says
is_denied e = says "permission denied" e || says "not enough permissions" e || says "forbidden" e

unfoldable pub is_timeout : Err → Bool
unfolding says
is_timeout e = str_eq e.name "AbortError" || is_code "ETIMEDOUT" e.code || says "timeout" e

unfoldable pub is_unreachable : Err → Bool
unfolding says
is_unreachable e =
    is_code "ECONNREFUSED" e.code
    || is_code "EHOSTUNREACH" e.code
    || is_code "ENETUNREACH" e.code
    || says "unreach" e

unfoldable pub is_protocol_error : Err → Bool
unfolding says
is_protocol_error e =
    says "protocol" e || says "bad response" e || says "malformed" e || says "parse" e

abbrev pub or_unknown : Option String → String
or_unknown none = "MIKROTIK_UNKNOWN_ERROR"
or_unknown (some c) = if str_eq c "" then "MIKROTIK_UNKNOWN_ERROR" else c

-- The code that the error is given; an error with a setup code keeps it.
unfoldable pub normal_code : Err → String
unfolding is_setup_code is_auth_failure is_denied is_timeout is_unreachable is_protocol_error
normal_code e =
    if is_setup_code e.code
    then or_unknown e.code
    else if is_auth_failure e
    then "MIKROTIK_AUTH_FAILED"
    else if is_denied e
    then "MIKROTIK_PERMISSION_DENIED"
    else if is_timeout e
    then "MIKROTIK_TIMEOUT"
    else if is_code "ENOTFOUND" e.code
    then "MIKROTIK_DNS_NOT_FOUND"
    else if is_code "ECONNRESET" e.code
    then "MIKROTIK_CONNECTION_RESET"
    else if is_unreachable e
    then "MIKROTIK_UNREACHABLE"
    else if is_protocol_error e
    then "MIKROTIK_PROTOCOL_ERROR"
    else or_unknown e.code

unfoldable pub normalize_mikrotik_error : Option Err → Err
unfolding normal_code
normalize_mikrotik_error none = record {
  code = some "MIKROTIK_UNKNOWN_ERROR";
  raw = "Unknown error";
  name = "";
}
normalize_mikrotik_error (some e) = record e { code = some (normal_code e) }

pub data Class : Type 0 where
  setup auth transient inconsistent unknown : Class

pub record Verdict : Type 0 where
  pub class_of : Class
  pub code : String
  pub retryable : Bool
  pub open_circuit_ms : Option ℕ

abbrev pub setup_codes : List String
setup_codes =
    "WG_INTERFACE_NOT_CONFIGURED" ∷ "MIKROTIK_NODES_NOT_CONFIGURED" ∷ "MIKROTIK_NODES_INVALID_JSON"
    ∷ "MIKROTIK_NODE_NOT_FOUND" ∷ "router_not_resolved" ∷ "missing_ip_or_mac" ∷ []

abbrev pub auth_codes : List String
auth_codes = "MIKROTIK_AUTH_FAILED" ∷ "MIKROTIK_PERMISSION_DENIED" ∷ []

abbrev pub transient_codes : List String
transient_codes =
    "WG_COMMAND_FAILED" ∷ "WG_LIST_PEERS_FAILED" ∷ "MIKROTIK_TIMEOUT" ∷ "MIKROTIK_UNREACHABLE"
    ∷ "MIKROTIK_CONNECTION_RESET" ∷ "MIKROTIK_DNS_NOT_FOUND" ∷ "MIKROTIK_PROTOCOL_ERROR" ∷ []

abbrev pub inconsistent_codes : List String
inconsistent_codes = "EVENT_INVALID_SCHEMA" ∷ "EVENT_INCONSISTENT" ∷ []

unfoldable pub has : String → List String → Bool
has c [] = false
has c (d ∷ set) = let rest = has c set in str_eq d c || rest

unfoldable pub classify_code : String → Verdict
unfolding has
classify_code c =
    if has c setup_codes
    then record {
      class_of = setup;
      code = c;
      retryable = false;
      open_circuit_ms = some (10 * 60 * 1000);
    }
    else if has c auth_codes
    then record {
      class_of = auth;
      code = c;
      retryable = false;
      open_circuit_ms = some (15 * 60 * 1000);
    }
    else if has c transient_codes
    then record { class_of = transient; code = c; retryable = true; open_circuit_ms = none }
    else if has c inconsistent_codes
    then record { class_of = inconsistent; code = c; retryable = false; open_circuit_ms = none }
    else record { class_of = unknown; code = c; retryable = false; open_circuit_ms = none }

abbrev pub code_or_empty : Option Err → String
code_or_empty none = ""
code_or_empty (some e) = elim e.code [ none ↦ "" | some c ↦ c ]

unfoldable pub classify_error : Option Err → Verdict
unfolding classify_code
classify_error err =
    if str_eq (code_or_empty err) ""
    then record {
      class_of = unknown;
      code = "UNKNOWN_ERROR";
      retryable = false;
      open_circuit_ms = none;
    }
    else classify_code (code_or_empty err)

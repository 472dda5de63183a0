-- ===== src/StateMachine.antt =====
-- src/services/stateMachine.js: `processEvent`, over the file backend of the job store.
-- Parameters stand for what it calls elsewhere: the configured routers, the WireGuard peers' status,
-- `executeAction`, whether the identity store's file can be written, and the random job ids.
pub mod Mac
pub mod Validate
pub mod Process
pub mod Outcomes
pub mod Trial
pub mod Breaker
pub mod Example
mod Tests
use relay_cerebro_infra.Base.{
  ℕ, String, Bool, true, false, not, Option, none, some, List, str_eq, truthy, if◌then◌else◌,
}

-- A payload's value where the code expects a text: undefined or null, a text, or a value of
-- another type, with its truthiness.
pub data Field : Type 0 where
  absent : Field
  text : String → Field
  other : Bool → Field

abbrev pub is_true : Field → Bool
is_true absent = false
is_true (text s) = truthy (some s)
is_true (other b) = b

pub record Payload : Type 0 where
  pub mik_id : Field
  pub router_id : Field
  pub pedido_id : Field
  pub ip : Field
  pub mac : Field
  pub sid : Field
  pub plan_id : Option String
  pub expires_at : Option String
  pub trial_minutes : Option ℕ
  pub peer_public_key : Option String

pub data EventType : Type 0 where
  trial_requested release_requested revoke_requested payment_confirmed : EventType
  unknown_type : String → EventType

-- `event_type` is `none` where the source's is missing or empty.
pub record Event : Type 0 where
  pub event_id : Option String
  pub event_type : Option EventType
  pub payload : Payload

pub data Action : Type 0 where
  authorize_by_pedido : Field → Field → Field → Field → Action
  revoke_session : Field → Field → Field → Action

pub data ActionResult : Type 0 where
  done failed threw : ActionResult

pub record Peer : Type 0 where
  pub public_key : String
  pub offline : Bool
  pub handshake_age : Option ℕ

-- What `markPending` is called with.
pub record Pending : Type 0 where
  pub sid : Field
  pub pedido_id : Field
  pub plan_id : Option String
  pub router_id : Field
  pub expires_at : Option String

-- What the module asks of the rest of the program: `getMikById`, `getPeersStatus` (`none` where the
-- call throws), RELAY_OFFLINE_MAX_AGE_SEC, `executeAction`, whether `markPending` returns, and
-- `makeJobId` (a prefix and the number of ids drawn before).
pub record Services : Type 0 where
  pub known_router : String → Bool
  pub peers : Option (List Peer)
  pub offline_max_age : ℕ
  pub execute : Action → ActionResult
  pub can_mark_pending : Bool
  pub job_id : String → ℕ → String

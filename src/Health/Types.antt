-- ===== src/Health/Types.antt =====
-- The dataclasses of custom_components/cast/health.py.
-- A uuid is the 128-bit number that it is in Python. Wall clock times, monotonic times and
-- durations are whole milliseconds, the resolution to which the source rounds `elapsed`.
use ha_int_gcast.Base.{ℕ, String, Bool, Option, none, List}
use ha_int_gcast.Health.Outcome.{DeliveryOutcome, unknown}

abbrev pub Uuid : Type 0
Uuid = ℕ

-- The two clocks, read once for each callback: `dt_util.utcnow()` and `time.monotonic()`.
pub record Moment : Type 0 where
  pub utc : ℕ
  pub monotonic : ℕ

-- pychromecast's player states; `other` is a state that the code compares with none of its names.
pub data PlayerState : Type 0 where
  playing buffering paused : PlayerState
  other : String → PlayerState

-- What the ledger asks of an exception: the answers of `isinstance`, and `f"{type(e).__name__}: {e}"`.
pub record Thrown : Type 0 where
  pub is_timeout_error : Bool
  pub is_cast_error : Bool
  pub is_request_timeout : Bool
  pub is_request_failed : Bool
  pub is_not_connected : Bool
  pub is_connection_error : Bool
  pub described : String

-- An error text: a literal, or an f-string with what it interpolates.
pub data Message : Type 0 where
  literal : String → Message
  not_idle : Option PlayerState → List (Option PlayerState) → Option String → Message
  superseded : Message
  no_transition : ℕ → Message
  idle_error : Message
  unrequested_error : Message
  load_rejected : Option ℕ → Option ℕ → Message
  watchdog_expired : Message
  launch_rejected : String → Message
  failed_while_connected : Message
  exception : Thrown → Message

pub record Observed : Type 0 where
  pub player_state : Option PlayerState
  pub idle_reason : Option String
  pub media_session_id : Option ℕ

-- `observed or {}`, of which the record takes each key by `.get`
abbrev pub nothing_observed : Observed
nothing_observed = record { player_state = none; idle_reason = none; media_session_id = none }

pub data UrlSource : Type 0 where
  override internal_url external_url : UrlSource

pub record DeliveryRecord : Type 0 where
  pub uuid : Uuid
  pub entity_id : Option String
  pub name : Option String
  pub source : String
  pub outcome : DeliveryOutcome
  pub content_id : Option String
  pub error : Option Message
  pub url_source : Option UrlSource
  pub responded : Bool
  pub requested_at : Option ℕ
  pub resolved_at : ℕ
  pub elapsed : Option ℕ
  pub player_state : Option PlayerState
  pub idle_reason : Option String
  pub media_session_id : Option ℕ

-- `ident` stands for the identity of the object, which `health.pending is not pending` compares;
-- `cancel_timeout` holds the handle of the timer that it cancels.
pub record PendingRequest : Type 0 where
  pub ident : ℕ
  pub content_id : String
  pub source : String
  pub requested_at : ℕ
  pub started : ℕ
  pub session_at_request : Option ℕ
  pub cancel_timeout : Option ℕ

pub record DeviceHealth : Type 0 where
  pub uuid : Uuid
  pub entity_id : Option String
  pub name : Option String
  pub host : Option String
  pub port : Option ℕ
  pub last_outcome : DeliveryOutcome
  pub last_record : Option DeliveryRecord
  pub last_success : Option ℕ
  pub last_seen : Option ℕ
  pub consecutive_failures : ℕ
  pub consecutive_timeouts : ℕ
  pub circuit_open_until : Option ℕ
  pub subnet_mismatch : Option Bool
  pub pending : Option PendingRequest

-- `DeviceHealth(uuid=uuid)`
abbrev pub new_health : Uuid → DeviceHealth
new_health uuid = record {
  uuid = uuid;
  entity_id = none;
  name = none;
  host = none;
  port = none;
  last_outcome = unknown;
  last_record = none;
  last_success = none;
  last_seen = none;
  consecutive_failures = 0;
  consecutive_timeouts = 0;
  circuit_open_until = none;
  subnet_mismatch = none;
  pending = none;
}

-- ===== src/Health/Verdicts.antt =====
-- The callbacks' data and the decisions of `DeliveryLedger` in custom_components/cast/health.py: the
-- conditions of `async_media_status` and the classification of `async_request_failed`.
use ha_int_gcast.Base.{
  ℕ, String, Bool, true, false, Option, none, some, not, ◌&&◌, ◌||◌, option_beq, ◌==◌, string_eq,
  nat_eq, if◌then◌else◌,
}
use ha_int_gcast.Health.Outcome.{DeliveryOutcome, fetch_failed, unreachable, timeout}
use ha_int_gcast.Health.Types.{
  PlayerState, playing, buffering, Thrown, Message, watchdog_expired, launch_rejected,
  failed_while_connected, exception, Observed, PendingRequest,
}
use ha_int_gcast.Health.Ledger.{str_truthy}

-- What discovery and the entity know about a device; `none` leaves a field as it is.
pub record Identity : Type 0 where
  pub entity_id : Option String
  pub name : Option String
  pub host : Option String
  pub port : Option ℕ
  pub seen : Bool

-- A media status callback.
pub record Status : Type 0 where
  pub content_id : Option String
  pub player_state : Option PlayerState
  pub idle_reason : Option String
  pub media_session_id : Option ℕ
  pub player_is_idle : Bool

-- An exception that a play request raised, and its `__cause__`.
pub record Failure : Type 0 where
  pub err : Thrown
  pub cause : Option Thrown

-- DELIVERY_TIMEOUT, in milliseconds
abbrev pub delivery_timeout : ℕ
delivery_timeout = 30000

abbrev pub observed_by : Status → Observed
observed_by st = record {
  player_state = st.player_state;
  idle_reason = st.idle_reason;
  media_session_id = st.media_session_id;
}

-- `player_is_idle and idle_reason == IDLE_REASON_ERROR`
unfoldable pub reports_error : Status → Bool
reports_error st = st.player_is_idle && option_beq st.idle_reason (some "ERROR")

-- `content_id not in (None, pending.content_id)`
unfoldable pub is_foreign : Option String → PendingRequest → Bool
is_foreign none p = false
is_foreign (some content_id) p = not (content_id == p.content_id)

-- `player_state in (BUFFERING, PLAYING)`
unfoldable pub is_transition : Option PlayerState → Bool
is_transition (some playing) = true
is_transition (some buffering) = true
is_transition _ = false

-- `session_at_request is not None and media_session_id == session_at_request`
unfoldable pub is_stale_session : Option ℕ → Option ℕ → Bool
is_stale_session none media_session_id = false
is_stale_session (some session) media_session_id = option_beq media_session_id (some session)

-- The verdict of `async_request_failed`: an outcome, whether the device responded, and the text.
pub record Verdict : Type 0 where
  pub outcome : DeliveryOutcome
  pub responded : Bool
  pub text : Message

-- `err.__cause__ if not isinstance(err, PyChromecastError) else err`
abbrev cause_of : Failure → Option Thrown
cause_of f = if f.err.is_cast_error then some f.err else f.cause

-- `connected or launch_failure`
abbrev pub answered : Option Bool → Option String → Bool
answered (some true) launch_failure = true
answered _ none = false
answered _ (some reason) = str_truthy reason

abbrev rejection : Option String → Message
rejection none = failed_while_connected
rejection (some reason) =
    if str_truthy reason then launch_rejected reason else failed_while_connected

abbrev classify_cause : Thrown → Option Thrown → Option Bool → Option String → Verdict
classify_cause err none connected launch_failure = record {
  outcome = fetch_failed;
  responded = true;
  text = exception err;
}
classify_cause err (some c) connected launch_failure =
    if c.is_request_timeout
    then record { outcome = timeout; responded = false; text = exception c }
    else if c.is_request_failed && answered connected launch_failure
    then record { outcome = fetch_failed; responded = true; text = rejection launch_failure }
    else if c.is_not_connected || c.is_connection_error || c.is_request_failed
    then record { outcome = unreachable; responded = false; text = exception c }
    else record { outcome = fetch_failed; responded = true; text = exception c }

unfoldable pub classify : Failure → Option Bool → Option String → Verdict
classify f connected launch_failure =
    if f.err.is_timeout_error
    then record { outcome = timeout; responded = false; text = watchdog_expired }
    else classify_cause f.err (cause_of f) connected launch_failure

-- The object of a timer is the pending request: `health.pending is pending`.
abbrev pub is_request : Option PendingRequest → ℕ → Bool
is_request none ident = false
is_request (some p) ident = p.ident == ident

-- `pending.cancel_timeout = None`, on the object that a fired timer holds
abbrev pub forget_timer : ℕ → Option PendingRequest → Option PendingRequest
forget_timer ident none = none
forget_timer ident (some p) =
    if p.ident == ident then some (record p { cancel_timeout = none }) else some p

abbrev pub is_from : Option PendingRequest → String → Bool
is_from none source = false
is_from (some p) source = p.source == source

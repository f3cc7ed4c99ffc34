-- ===== src/Player/Requests.antt =====
-- The tracked play request of a `CastMediaPlayerEntity`,
-- custom_components/cast/media_player.py: `_async_quick_play_tracked` and `_last_launch_failure`.
use ha_int_gcast.Base.{ℕ, String, Bool, true, false, Option, none, some, List, or_else, string_eq}
use ha_int_gcast.Base.Dict.{get}
use ha_int_gcast.Base.Result.{Result, returned, raised}
use ha_int_gcast.Base.Action.{pure, raise, read, write, ◌>>=◌, ◌>>◌, attempt}
use ha_int_gcast.Health.Types.{Moment, Thrown}
use ha_int_gcast.Health.Ledger.{Ledger}
use ha_int_gcast.Health.Verdicts.{Failure, delivery_timeout}
use ha_int_gcast.Health.Requests.{begin_request, request_failed}
use ha_int_gcast.Player.Types.{LaunchFailure, Chromecast, Entity, MediaStatus}
use ha_int_gcast.Player.Calls.{
  Json, string, value, AppData, Command, Reason, request_watchdog, Raised, timeout_error,
  home_assistant, World, Method, quick_play_app,
}
use Prim.Native.String.{◌++◌ as str_append}

-- What happens outside while a request runs: the answers of the device's library, whether the
-- watchdog expires before the call with these earlier commands is over, the text of an exception, the
-- time at the begin and at the end, and what the event loop does in between.
pub record Outside (W : Type 0) : Type 0 where
  pub answer : List Command → Command → Option Raised
  pub too_late : List Command → Bool
  pub described : Reason → String
  pub begun : Moment
  pub ended : Moment
  pub meanwhile : World W → World W

-- `str(app_data.get("media_id"))`
abbrev pub content_text : Option Json → String
content_text none = "None"
content_text (some (string s)) = s
content_text (some (value truth s)) = s

unfoldable pub content_of : AppData → String
content_of app_data = content_text (get app_data "media_id")

-- `media_status.media_session_id if media_status else None`
abbrev session_of : Option MediaStatus → Option ℕ
session_of none = none
session_of (some status) = status.plain.media_session_id

-- `_last_launch_failure`
abbrev launch_text : Option LaunchFailure → Option String
launch_text none = none
launch_text (some f) =
    some (str_append (str_append "reason=" f.reason) (str_append " app_id=" f.app_id))

abbrev launch_failure_of : Option Chromecast → Option String
launch_failure_of none = none
launch_failure_of (some c) = launch_text c.launch_failure

unfoldable pub last_launch_failure : Entity → Option String
last_launch_failure e = launch_failure_of e.chromecast

-- The exceptions as the ledger sees them: a HomeAssistantError passes no test but has its cause.
abbrev pub plain_error : Bool → String → Thrown
plain_error is_timeout described = record {
  is_timeout_error = is_timeout;
  is_cast_error = false;
  is_request_timeout = false;
  is_request_failed = false;
  is_not_connected = false;
  is_connection_error = false;
  described = described;
}

abbrev pub expired_watchdog : Thrown
expired_watchdog = plain_error true "TimeoutError: "

abbrev pub timeout_failure : Thrown → Failure
timeout_failure t = record { err = t; cause = none }

abbrev pub error_failure : String → Option Thrown → Failure
error_failure described cause = record { err = plain_error false described; cause = cause }

abbrev pub on_ledger : {W : Type 0} → (Ledger W → Ledger W) → World W → World W
on_ledger f w = record w { ledger = f w.ledger }

-- `asyncio.timeout(REQUEST_WATCHDOG)` around the job, which goes on in its thread
abbrev pub watched : Bool → Result Raised (Unit {0}) → Result Raised (Unit {0})
watched true r = raised (timeout_error expired_watchdog)
watched false r = r

module _ {W : Type 0} (out : Outside W) where
  -- `async_begin_request`, as the entity calls it
  unfoldable pub begin : AppData → Option String → World W → World W
  begin app_data source w =
      let e = w.entity in
      on_ledger
        (begin_request out.begun e.info.uuid (content_of app_data) (or_else source e.request_source)
          (session_of e.media_status) delivery_timeout)
        w

  unfoldable pub job : String → AppData → Method W (Result Raised (Unit {0}))
  job app_name app_data = do
    late ← read (λ w. out.too_late w.sent)
    r ← attempt (quick_play_app out.answer app_name app_data)
    write out.meanwhile
    pure (watched late r)

  -- The two `except` clauses
  unfoldable pub settle : Result Raised (Unit {0}) → Method W (Unit {0})
  settle (returned u) = pure u
  settle (raised (timeout_error t)) = do
    write (λ w.
        on_ledger (request_failed out.ended w.entity.info.uuid (timeout_failure t) none none) w)
    raise (home_assistant request_watchdog (some t))
  settle (raised (home_assistant reason cause)) = do
    write (λ w.
        on_ledger
          (request_failed out.ended w.entity.info.uuid (error_failure (out.described reason) cause)
            (some w.entity.available) (last_launch_failure w.entity))
          w)
    raise (home_assistant reason cause)
  settle (raised e) = raise e

  -- `_async_quick_play_tracked`
  unfoldable pub quick_play_tracked : String → AppData → Option String → Method W (Unit {0})
  quick_play_tracked app_name app_data source = do
    write (begin app_data source)
    r ← job app_name app_data
    settle r

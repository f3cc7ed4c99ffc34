-- ===== src/Player/Calls.antt =====
-- What a `CastMediaPlayerEntity` of custom_components/cast/media_player.py asks of its device: the commands,
-- the exceptions, `api_error`, and the services without a media id.
use ha_int_gcast.Base.{
  ℕ, String, Bool, Option, none, some, List, [], ◌∷◌, ◌++◌, not, is_some, ◌==◌, string_eq,
  if◌then◌else◌,
}
use ha_int_gcast.Base.Dict.{Dict}
use ha_int_gcast.Base.Result.{Result, returned, raised}
use ha_int_gcast.Base.Action.{Action, pure, read, lift, ◌>>=◌, ◌>>◌, attempt}
use ha_int_gcast.Health.Types.{Thrown}
use ha_int_gcast.Health.Ledger.{Ledger}
use ha_int_gcast.Repairs.Manager.{RepairManager}
use ha_int_gcast.Player.Types.{Chromecast, Entity}
use ha_int_gcast.Player.Media.{Controller, media_controller}

-- A value of the app's data: a string, or another value by its truth and by what `str` makes of it.
pub data Json : Type 0 where
  string : String → Json
  value : Bool → String → Json

abbrev pub AppData : Type 0
AppData = Dict String Json

-- The calls of pychromecast that reach the device
pub data Command : Type 0 where
  quick_play : String → AppData → Command
  quit_app : Command
  start_app : String → Command
  set_volume_muted : Bool → Command
  set_volume : ℕ → Command
  media_play media_pause media_stop queue_prev queue_next : Controller → Command
  media_seek : Controller → ℕ → Command

-- Why a HomeAssistantError is raised; `library` is one of Home Assistant's own.
pub data Reason : Type 0 where
  not_available request_watchdog : Reason
  call_failed template_failed app_not_supported library : String → Reason

-- An exception: PyChromecastError, TimeoutError, NotImplementedError, HomeAssistantError with its
-- cause, or any other by its name.
pub data Raised : Type 0 where
  cast_error timeout_error : Thrown → Raised
  not_implemented : Raised
  home_assistant : Reason → Option Thrown → Raised
  foreign : String → Raised

-- The entity with what it writes to: the ledger, the repair manager if it is set up, and the device.
pub record World (W : Type 0) : Type 0 where
  pub entity : Entity
  pub ledger : Ledger W
  pub repairs : Option RepairManager
  pub sent : List Command

abbrev pub Method : Type 0 → Type 0 → Type 0
Method W A = Action (World W) Raised A

abbrev answered_by : Option Raised → Result Raised (Unit {0})
answered_by none = returned tt
answered_by (some e) = raised e

-- `api_error`, on what the method returned or raised
unfoldable pub converted : {A : Type 0} → String → Result Raised A → Result Raised A
converted name (raised (cast_error t)) = raised (home_assistant (call_failed name) (some t))
converted name r = r

unfoldable pub api_error : {W A : Type 0} → String → Method W A → Method W A
api_error name m = do r ← attempt m; lift (converted name r)

-- `_get_chromecast`
abbrev or_unavailable : Option Chromecast → Result Raised Chromecast
or_unavailable none = raised (home_assistant not_available none)
or_unavailable (some c) = returned c

unfoldable pub get_chromecast : {W : Type 0} → Method W Chromecast
get_chromecast w = (or_unavailable w.entity.chromecast, w)

-- The picture that `turn_on` shows
abbrev splash : AppData
splash =
    ("media_id", string "https://www.home-assistant.io/images/cast/splash.png")
    ∷ ("media_type", string "image/png")
    ∷ []

-- `answer` gives the exception, if any, with which the device's library meets a command after those
-- that it was sent before.
module _ {W : Type 0} (answer : List Command → Command → Option Raised) where
  unfoldable pub perform : Command → Method W (Unit {0})
  perform c w = (answered_by (answer w.sent c), record w { sent = w.sent ++ c ∷ [] })

  -- `_quick_play`, `_quit_app` and `_start_app`
  unfoldable pub quick_play_app : String → AppData → Method W (Unit {0})
  quick_play_app app_name app_data =
      api_error "_quick_play" (do c ← get_chromecast; perform (quick_play app_name app_data))

  unfoldable pub quit_app_call : String → Method W (Unit {0})
  quit_app_call name = api_error name (do c ← get_chromecast; perform quit_app)

  unfoldable pub start_app_call : String → Method W (Unit {0})
  start_app_call app_id = api_error "_start_app" (do c ← get_chromecast; perform (start_app app_id))

  -- `turn_on`, with the app id of the default media receiver
  unfoldable pub turn_on : String → Method W (Unit {0})
  turn_on media_receiver = do
    c ← get_chromecast
    if not c.is_idle then pure tt else do
      (if is_some c.app_id then quit_app_call "_quit_app" else pure tt)
      (if c.cast_type == "cast"
          then quick_play_app "default_media_receiver" splash
          else start_app_call media_receiver)

  -- `turn_off`, `mute_volume` and `set_volume_level`
  unfoldable pub turn_off : Method W (Unit {0})
  turn_off = quit_app_call "turn_off"

  unfoldable pub mute_volume : Bool → Method W (Unit {0})
  mute_volume mute =
      api_error "mute_volume" (do c ← get_chromecast; perform (set_volume_muted mute))

  unfoldable pub set_volume_level : ℕ → Method W (Unit {0})
  set_volume_level volume =
      api_error "set_volume_level" (do c ← get_chromecast; perform (set_volume volume))

  -- `_media_controller` and the services that go to it
  abbrev control : String → (Controller → Command) → Method W (Unit {0})
  control name command = api_error name (do
    c ← get_chromecast
    controller ← read (λ w. media_controller w.entity)
    perform (command controller))

  unfoldable pub play_service : Method W (Unit {0})
  play_service = control "media_play" media_play

  unfoldable pub pause_service : Method W (Unit {0})
  pause_service = control "media_pause" media_pause

  unfoldable pub stop_service : Method W (Unit {0})
  stop_service = control "media_stop" media_stop

  unfoldable pub previous_track_service : Method W (Unit {0})
  previous_track_service = control "media_previous_track" queue_prev

  unfoldable pub next_track_service : Method W (Unit {0})
  next_track_service = control "media_next_track" queue_next

  unfoldable pub seek_service : ℕ → Method W (Unit {0})
  seek_service position = control "media_seek" (λ controller. media_seek controller position)

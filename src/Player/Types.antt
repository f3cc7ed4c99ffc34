-- ===== src/Player/Types.antt =====
-- The objects of pychromecast that custom_components/cast/media_player.py reads, and the attributes of
-- `CastDevice` and `CastMediaPlayerEntity`. Volumes, positions and durations are opaque numbers.
use ha_int_gcast.Base.{ℕ, String, Bool, false, Option, none, List, []}
use ha_int_gcast.Base.Dict.{Dict}
use ha_int_gcast.Health.Types.{Uuid}
use ha_int_gcast.Health.Verdicts.{Status}
use ha_int_gcast.Topology.Types.{ChromecastInfo}
use ha_int_gcast.Callbacks.{StatusListener}

-- A media status; `plain` holds the values that the ledger is handed.
pub record MediaStatus : Type 0 where
  pub plain : Status
  pub player_is_playing : Bool
  pub player_is_paused : Bool
  pub media_is_tvshow : Bool
  pub media_is_movie : Bool
  pub media_is_musictrack : Bool
  pub supports_queue_next : Bool
  pub supports_seek : Bool
  pub duration : Option ℕ
  pub current_time : Option ℕ
  pub title : Option String
  pub artist : Option String
  pub album_name : Option String
  pub album_artist : Option String
  pub track : Option ℕ
  pub series_title : Option String
  pub season : Option ℕ
  pub episode : Option ℕ
  pub images : List (Option String)

pub record CastStatus : Type 0 where
  pub volume_level : ℕ
  pub volume_muted : Bool
  pub volume_control_type : String
  pub is_active_input : Option Bool

-- `receiver_controller.launch_failure`
pub record LaunchFailure : Type 0 where
  pub reason : String
  pub app_id : String

-- A connected chromecast with what it last reported
pub record Chromecast : Type 0 where
  pub uuid : Uuid
  pub cast_type : String
  pub ignore_cec : Bool
  pub app_id : Option String
  pub app_display_name : Option String
  pub is_idle : Bool
  pub status : Option CastStatus
  pub media_controller_status : MediaStatus
  pub launch_failure : Option LaunchFailure

-- `MultizoneManager`: the groups of this device, and the media status of a group's controller, `none`
-- if the group has none.
pub record Multizone : Type 0 where
  pub memberships : List String
  pub controller_status : String → Option MediaStatus

-- The entity. `updates` counts the writes of its state to Home Assistant; a controller of the
-- dashboard is the number that it was given.
-- What a thread of pychromecast that is inside a callback has yet to write: the status of a group and
-- then its time, its time only, or nothing but the update of the state.
pub data Write : Type 0 where
  sets_status : String → Option MediaStatus → Write
  sets_time : String → Write
  schedules : Write

pub record Entity : Type 0 where
  pub entity_id : String
  pub info : ChromecastInfo
  pub chromecast : Option Chromecast
  pub mz_mgr : Option Multizone
  pub status_listener : Option StatusListener
  pub cast_status : Option CastStatus
  pub volume_level : Option ℕ
  pub is_volume_muted : Option Bool
  pub media_status : Option MediaStatus
  pub media_status_received : Option ℕ
  pub mz_media_status : Dict String (Option MediaStatus)
  pub mz_media_status_received : Dict String ℕ
  pub available : Bool
  pub hass_cast_controller : Option ℕ
  pub request_source : String
  pub updates : ℕ
  pub unfinished : List Write

-- `CastMediaPlayerEntity(hass, config_entry, cast_info)`
abbrev pub new_entity : String → ChromecastInfo → Entity
new_entity entity_id info = record {
  entity_id = entity_id;
  info = info;
  chromecast = none;
  mz_mgr = none;
  status_listener = none;
  cast_status = none;
  volume_level = none;
  is_volume_muted = none;
  media_status = none;
  media_status_received = none;
  mz_media_status = [];
  mz_media_status_received = [];
  available = false;
  hass_cast_controller = none;
  request_source = "play_media";
  updates = 0;
  unfinished = [];
}

-- ===== src/Player/Media.antt =====
-- What a `CastMediaPlayerEntity` of custom_components/cast/media_player.py shows: its state, its features
-- and the attributes of the media.
use ha_int_gcast.Base.{
  ℕ, String, Bool, true, false, Option, none, some, [], ◌∷◌, not, ◌&&◌, ◌||◌, option_beq, is_some,
  ◌==◌, string_eq, if◌then◌else◌,
}
use ha_int_gcast.Base.Dict.{Dict, get}
use ha_int_gcast.Health.Types.{PlayerState, playing, buffering, other}
use ha_int_gcast.Player.Types.{MediaStatus, CastStatus, Chromecast, Entity}

-- `player_state == MEDIA_PLAYER_STATE_UNKNOWN`
abbrev is_unknown_state : Option PlayerState → Bool
is_unknown_state (some (other state)) = state == "UNKNOWN"
is_unknown_state _ = false

-- `media_status is None or media_status.player_state == MEDIA_PLAYER_STATE_UNKNOWN`
unfoldable pub is_uninformative : Option MediaStatus → Bool
is_uninformative none = true
is_uninformative (some status) = is_unknown_state status.plain.player_state

-- The first group whose status says something
unfoldable pub first_group : Dict String (Option MediaStatus) → Option (String × MediaStatus)
first_group [] = none
first_group ((group, none) ∷ groups) = first_group groups
first_group ((group, some status) ∷ groups) =
    if is_uninformative (some status) then first_group groups else some (group, status)

-- A status with the time at which it came, and the two ways in which `_media_status` can end: it
-- raises KeyError if the group has a status but no time.
pub data Selected : Type 0 where
  selected : Option MediaStatus → Option ℕ → Selected
  key_error : String → Selected

abbrev pub dated : String → MediaStatus → Option ℕ → Selected
dated group status none = key_error group
dated group status (some received) = selected (some status) (some received)

abbrev pub of_group : Entity → Option (String × MediaStatus) → Selected
of_group e none = selected e.media_status e.media_status_received
of_group e (some (group, status)) = dated group status (get e.mz_media_status_received group)

-- `_media_status`
unfoldable pub media_selection : Entity → Selected
media_selection e =
    if is_uninformative e.media_status
    then of_group e (first_group e.mz_media_status)
    else selected e.media_status e.media_status_received

-- `_media_status()[0]` and `[1]`
unfoldable pub shown_status : Selected → Option MediaStatus
shown_status (selected status received) = status
shown_status (key_error group) = none

unfoldable pub shown_received : Selected → Option ℕ
shown_received (selected status received) = received
shown_received (key_error group) = none

-- The media controller of this device, or that of a group
pub data Controller : Type 0 where
  own : Controller
  of_group_uuid : String → Controller

abbrev pub group_controller : Option (String × MediaStatus) → Controller
group_controller none = own
group_controller (some (group, status)) = of_group_uuid group

-- `_media_controller`, when a chromecast is there
unfoldable pub media_controller : Entity → Controller
media_controller e =
    if is_uninformative e.media_status && is_some e.mz_mgr
    then group_controller (first_group e.mz_media_status)
    else own

-- `app_id` and `app_name`
abbrev pub app_id : Entity → Option String
app_id e = elim e.chromecast [ none ↦ none | some c ↦ c.app_id ]

abbrev pub app_name : Entity → Option String
app_name e = elim e.chromecast [ none ↦ none | some c ↦ c.app_display_name ]

-- CAST_APP_ID_HOMEASSISTANT_LOVELACE and pychromecast's IDLE_APP_ID, parameters of the functions below
pub record AppIds : Type 0 where
  pub lovelace : String
  pub idle : String

-- `MediaPlayerState`, as far as the property returns it
pub data State : Type 0 where
  off idle playing_state buffering_state paused_state : State

-- The part of `state` that the media status decides
unfoldable pub state_of_status : MediaStatus → Option State
state_of_status status = elim status.plain.player_state [
  | some playing ↦ some playing_state
  | some buffering ↦ some buffering_state
  | _ ↦
      if status.player_is_paused
      then some paused_state
      else if status.plain.player_is_idle
      then some idle
      else none
]

abbrev pub state_of_media : Option MediaStatus → Option State
state_of_media none = none
state_of_media (some status) = state_of_status status

-- The part that the app decides
unfoldable pub state_of_app : AppIds → Option String → State
state_of_app ids app =
    if option_beq app (some "Netflix")
    then playing_state
    else if not (is_some app) || option_beq app (some ids.idle)
    then off
    else idle

-- `cast_type == CAST_TYPE_CHROMECAST and not ignore_cec and is_active_input is False`
unfoldable pub is_switched_away : Chromecast → CastStatus → Bool
is_switched_away c status =
    c.cast_type == "cast" && not c.ignore_cec && option_beq_bool status.is_active_input
  where
    option_beq_bool : Option Bool → Bool
    option_beq_bool (some false) = true
    option_beq_bool _ = false

abbrev decided : Option State → State → State
decided none default = default
decided (some s) default = s

abbrev pub state_with : AppIds → Option Chromecast → Option CastStatus → Entity → Option State
state_with ids (some c) (some status) e =
    if is_switched_away c status
    then some off
    else if option_beq (app_id e) (some ids.lovelace)
    then some playing_state
    else some
        (decided (state_of_media (shown_status (media_selection e))) (state_of_app ids (app_id e)))
state_with ids c status e = none

-- `state`
unfoldable pub state : AppIds → Entity → Option State
state ids e = state_with ids e.chromecast e.cast_status e

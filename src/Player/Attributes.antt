-- ===== src/Player/Attributes.antt =====
-- The media attributes, the features and the probe's view of a `CastMediaPlayerEntity`,
-- custom_components/cast/media_player.py.
use ha_int_gcast.Base.{
  ℕ, String, Bool, false, Option, none, some, List, [], ◌∷◌, ◌++◌, not, ◌||◌, option_beq, ◌==◌,
  string_eq, if◌then◌else◌,
}
use ha_int_gcast.Base.Dict.{Dict}
use ha_int_gcast.Health.Types.{PlayerState}
use ha_int_gcast.Health.Ledger.{str_truthy}
use ha_int_gcast.Player.Types.{MediaStatus, CastStatus, Chromecast, Entity}
use ha_int_gcast.Player.Media.{media_selection, shown_status, shown_received, app_id, AppIds}
use ha_int_gcast.Probe.Snapshot.{ProbeSnapshot}

-- The status that an attribute reads
abbrev pub shown : Entity → Option MediaStatus
shown e = shown_status (media_selection e)

-- `self.app_id == CAST_APP_ID_HOMEASSISTANT_LOVELACE`
abbrev pub shows_dashboard : AppIds → Entity → Bool
shows_dashboard ids e = option_beq (app_id e) (some ids.lovelace)

-- An attribute of the media status, `None` without one
abbrev pub attribute {ℓ} : {A : Type ℓ} → (MediaStatus → Option A) → Option MediaStatus → Option A
attribute f none = none
attribute f (some status) = f status

-- `media_title`, `media_artist`, `media_album_name`, `media_album_artist`, `media_track`,
-- `media_series_title`, `media_season` and `media_episode`
unfoldable pub media_text : (MediaStatus → Option String) → Entity → Option String
media_text field e = attribute field (shown e)

unfoldable pub media_number : (MediaStatus → Option ℕ) → Entity → Option ℕ
media_number field e = attribute field (shown e)

-- `media_image_url`
abbrev first_url : List (Option String) → Option String
first_url [] = none
first_url (none ∷ images) = none
first_url (some url ∷ images) = if str_truthy url then some url else none

unfoldable pub media_image_url : Entity → Option String
media_image_url e = attribute (λ status. first_url status.images) (shown e)

-- `media_content_id` and `media_duration`
unfoldable pub media_content_id : AppIds → Entity → Option String
media_content_id ids e =
    if shows_dashboard ids e then none else attribute (λ status. status.plain.content_id) (shown e)

unfoldable pub media_duration : AppIds → Entity → Option ℕ
media_duration ids e =
    if shows_dashboard ids e then none else attribute (λ status. status.duration) (shown e)

-- `media_position` and `media_position_updated_at`
abbrev position_of : MediaStatus → Option ℕ
position_of status =
    if status.player_is_playing || status.player_is_paused || status.plain.player_is_idle
    then status.current_time
    else none

unfoldable pub media_position : AppIds → Entity → Option ℕ
media_position ids e = if shows_dashboard ids e then none else attribute position_of (shown e)

unfoldable pub media_position_updated_at : AppIds → Entity → Option ℕ
media_position_updated_at ids e =
    if shows_dashboard ids e then none else shown_received (media_selection e)

-- `MediaType`, and the two ways in which `media_content_type` can end: `_get_chromecast` raises
-- without a chromecast.
pub data MediaType : Type 0 where
  tvshow movie music video : MediaType

pub data ContentType : Type 0 where
  content_type : Option MediaType → ContentType
  chromecast_missing : ContentType

-- `cast_type in (CAST_TYPE_AUDIO, CAST_TYPE_GROUP)`
abbrev pub is_audio_type : String → Bool
is_audio_type cast_type = cast_type == "audio" || cast_type == "group"

abbrev type_by_device : Option Chromecast → ContentType
type_by_device none = chromecast_missing
type_by_device (some c) = content_type (some (if is_audio_type c.cast_type then music else video))

abbrev type_of : Option MediaStatus → Option Chromecast → ContentType
type_of none c = content_type none
type_of (some status) c =
    if status.media_is_tvshow
    then content_type (some tvshow)
    else if status.media_is_movie
    then content_type (some movie)
    else if status.media_is_musictrack
    then content_type (some music)
    else type_by_device c

unfoldable pub media_content_type : AppIds → Entity → ContentType
media_content_type ids e =
    if shows_dashboard ids e then content_type none else type_of (shown e) e.chromecast

-- `MediaPlayerEntityFeature`
pub data Feature : Type 0 where
  play_media turn_off turn_on volume_mute volume_set pause play stop : Feature
  previous_track next_track seek browse_media : Feature

abbrev volume_features : Option CastStatus → List Feature
volume_features none = []
volume_features (some status) =
    if status.volume_control_type == "fixed" then [] else volume_mute ∷ volume_set ∷ []

abbrev queue_features : MediaStatus → List Feature
queue_features status =
    (if status.supports_queue_next then previous_track ∷ next_track ∷ [] else [])
    ++ (if status.supports_seek then seek ∷ [] else [])

abbrev media_features : Option MediaStatus → Bool → List Feature
media_features (some status) false = pause ∷ play ∷ stop ∷ queue_features status
media_features status dashboard = []

-- `supported_features`; the flag says whether Home Assistant has media sources.
unfoldable pub supported_features : AppIds → Bool → Entity → List Feature
supported_features ids has_media_source e =
    (play_media ∷ turn_off ∷ turn_on ∷ [])
    ++ volume_features e.cast_status
    ++ media_features (shown e) (shows_dashboard ids e)
    ++ (if has_media_source then browse_media ∷ [] else [])

-- `probe_snapshot`
abbrev pub group_states : Dict String (Option MediaStatus) → List (Option PlayerState)
group_states [] = []
group_states ((group, status) ∷ groups) = player_state_of status ∷ group_states groups
  where
    player_state_of : Option MediaStatus → Option PlayerState
    player_state_of none = none
    player_state_of (some s) = s.plain.player_state

abbrev snapshot_of : Entity → Option Chromecast → Option ProbeSnapshot
snapshot_of e none = none
snapshot_of e (some c) =
    if not e.available
    then none
    else some (record {
      cast_type = some c.cast_type;
      is_audio_group = e.info.is_audio_group;
      app_id = c.app_id;
      app_idle = c.is_idle;
      player_state = attribute (λ status. status.plain.player_state) e.media_status;
      group_player_states = group_states e.mz_media_status;
      media_session_id = attribute (λ status. status.plain.media_session_id) e.media_status;
    })

unfoldable pub probe_snapshot : Entity → Option ProbeSnapshot
probe_snapshot e = snapshot_of e e.chromecast

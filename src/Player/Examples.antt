-- ===== src/Player/Examples.antt =====
-- The theorems on custom_components/cast/media_player.py at concrete inputs, and tests.
use ha_int_gcast.Base.{◌⊎◌}
use ha_int_gcast.Base.{
  ℕ, ◌≡◌, refl, String, Bool, true, false, none, some, List, [], ◌∷◌, ◌==◌, string_eq, is_some,
  if◌then◌else◌,
}
use ha_int_gcast.Base.Result.{returned, raised}
use ha_int_gcast.Health.Types.{Moment, PlayerState, playing, other}
use ha_int_gcast.Health.Ledger.{device, health_at}
use ha_int_gcast.Health.Run.{init}
use ha_int_gcast.Health.Run.Timers.{pending_of}
use ha_int_gcast.Topology.Types.{ChromecastInfo}
use ha_int_gcast.Base.Dict.{get, put}
use ha_int_gcast.Callbacks.{Registrations, new_listener}
use ha_int_gcast.Health.Requests.{begin_request}
use ha_int_gcast.Urls.{UrlLibrary}
use ha_int_gcast.Playlist.Items.{fails}
use ha_int_gcast.Playlist.Pls.{parse_error}
use ha_int_gcast.Player.Types.{MediaStatus, CastStatus, Chromecast, Multizone, new_entity}
use ha_int_gcast.Player.Callbacks.{
  connect, disconnect, invalidate_entity, on_media_status, on_connection_status, poll,
}
use ha_int_gcast.Player.Media.{
  AppIds, playing_state, state, media_selection, first_group, is_uninformative, shown_status,
  state_of_status, is_switched_away,
}
use ha_int_gcast.Player.Lifecycle.{
  Occurrence, connects, disconnects, receives, media_status, connection_status, alive, occur, react,
}
use ha_int_gcast.Player.Selection.{Agrees, alive-Agrees}
use ha_int_gcast.Player.Silence.{ShowsNothing, alive-ShowsNothing}
use ha_int_gcast.Player.Calls.{
  not_implemented, World, AppData, string, quick_play_app, api_error, converted, get_chromecast,
  perform,
}
use ha_int_gcast.Player.Requests.{Outside, quick_play_tracked, content_of, begin, job, settle}
use ha_int_gcast.Player.Tracked.{LeavesPending}
use ha_int_gcast.Player.PlayMedia.{Services}
use ha_int_gcast.Player.Announce.{Speech, async_announce}
use ha_int_gcast.Player.Announced.{Refused, announce-Refused, cause_of}
use ha_int_gcast.Player.Lifecycle.{writes_on, is_undisturbed}
use ha_int_gcast.Player.Callbacks.{go_on_writing, nth_write, without_nth}
use ha_int_gcast.Player.Selection.{IsCaught}
use ha_int_gcast.Player.Media.{key_error}
use ha_int_gcast.Player.Setup.{
  Group, group_returns, loses_once, listening_groups, drop_group, group_disconnected, Change,
  discovered, lost, changes, change, cast_discovered, create_cast_device, is_unwanted, cast_removed,
  set_remove,
}
use ha_int_gcast.Player.Owners.{IsOwned, changes-IsOwned}

abbrev at : ℕ → Moment
at t = record { utc = t; monotonic = t }

abbrev kitchen : ChromecastInfo
kitchen = record {
  uuid = 7;
  friendly_name = some "Kitchen";
  host = some "192.168.1.7";
  port = some 8009;
  is_audio_group = false;
  is_dynamic_group = none;
}

abbrev song : String
song = "http://ha:8123/song.mp3"

abbrev report : PlayerState → MediaStatus
report player_state = record {
  plain = record {
    content_id = some song;
    player_state = some player_state;
    idle_reason = none;
    media_session_id = some 1;
    player_is_idle = false;
  };
  player_is_playing = true;
  player_is_paused = false;
  media_is_tvshow = false;
  media_is_movie = false;
  media_is_musictrack = true;
  supports_queue_next = false;
  supports_seek = false;
  duration = none;
  current_time = none;
  title = none;
  artist = none;
  album_name = none;
  album_artist = none;
  track = none;
  series_title = none;
  season = none;
  episode = none;
  images = [];
}

abbrev receiver : CastStatus
receiver = record {
  volume_level = 50;
  volume_muted = false;
  volume_control_type = "attenuation";
  is_active_input = none;
}

abbrev speaker : Chromecast
speaker = record {
  uuid = 7;
  cast_type = "audio";
  ignore_cec = false;
  app_id = some "CC1AD845";
  app_display_name = none;
  is_idle = false;
  status = some receiver;
  media_controller_status = report (other "UNKNOWN");
  launch_failure = none;
}

abbrev manager : Multizone
manager = record { memberships = "8" ∷ []; controller_status = λ group. some (report playing) }

abbrev unregistered : Registrations
unregistered = record { on_chromecast = []; multizones = []; multizone_listeners = [] }

abbrev apps : AppIds
apps = record { lovelace = "A078F6B0"; idle = "E8C28D3C" }

-- The speaker connects, learns of its group, and is asked for its own media in vain.
abbrev half_way : List (Moment × Occurrence)
half_way =
    (at 2, writes_on 0)
    ∷ (at 2, receives (media_status (some (report (other "UNKNOWN")))))
    ∷ (at 1, receives (connection_status "CONNECTED"))
    ∷ (at 0, connects 1 speaker manager unregistered)
    ∷ []

abbrev life : List (Moment × Occurrence)
life = (at 3, writes_on 0) ∷ (at 3, writes_on 0) ∷ half_way

abbrev over : List (Moment × Occurrence)
over = (at 4, disconnects) ∷ life

life-calm :
    (is_undisturbed "media_player.kitchen" kitchen half_way ≡ true)
    × (is_undisturbed "media_player.kitchen" kitchen over ≡ true)
unfolding is_undisturbed alive occur connect react on_connection_status poll on_media_status
    go_on_writing nth_write without_nth new_listener
life-calm = (refl, refl)

alive-Agrees_example :
    Agrees (alive "media_player.kitchen" kitchen half_way)
    ⊎ IsCaught (alive "media_player.kitchen" kitchen half_way)
alive-Agrees_example = alive-Agrees "media_player.kitchen" kitchen half_way life-calm.0

-- Between the two writes, reading the media status raises.
caught : media_selection (alive "media_player.kitchen" kitchen half_way) ≡ key_error "8"
unfolding alive occur connect react on_media_status on_connection_status poll go_on_writing
    nth_write without_nth media_selection first_group is_uninformative new_listener put get
caught = refl

gone : (alive "media_player.kitchen" kitchen over).chromecast ≡ none
unfolding alive occur disconnect invalidate_entity
gone = refl

alive-ShowsNothing_example : ShowsNothing apps true (alive "media_player.kitchen" kitchen over)
alive-ShowsNothing_example =
    alive-ShowsNothing apps true "media_player.kitchen" kitchen over life-calm.1 gone

-- The group plays, so the entity does, and its commands go to the group.
plays_with_group : state apps (alive "media_player.kitchen" kitchen life) ≡ some playing_state
unfolding alive occur connect react on_media_status on_connection_status poll go_on_writing
    nth_write without_nth state media_selection first_group is_uninformative shown_status
    state_of_status is_switched_away new_listener put get
plays_with_group = refl

abbrev calm : Outside ℕ
calm = record {
  answer = λ sent c. none;
  too_late = λ sent. false;
  described = λ reason. "HomeAssistantError";
  begun = at 10;
  ended = at 20;
  meanwhile = λ w. w;
}

abbrev idle_world : World ℕ
idle_world = record {
  entity = record (new_entity "media_player.kitchen" kitchen) {
    chromecast = some speaker;
    mz_mgr = some manager;
    available = true;
  };
  ledger = init (record { overrides = []; internal = none; external = none }) 0;
  repairs = none;
  sent = [];
}

abbrev left_pending : LeavesPending 7 calm.meanwhile
left_pending = record { uuid = λ w h. h; pending = λ w. refl }

abbrev song_data : AppData
song_data = ("media_id", string song) ∷ ("media_type", string "music") ∷ []

-- An app that pychromecast does not know
abbrev unknown_app : Outside ℕ
unknown_app = record calm { answer = λ sent c. some not_implemented }

-- Its request stays pending, although nothing plays.
still_pending :
    is_some
      (pending_of (quick_play_tracked unknown_app "karaoke" song_data none idle_world).1.ledger 7)
    ≡ true
unfolding quick_play_tracked begin job settle quick_play_app api_error converted get_chromecast
    perform content_of begin_request device health_at get put init
still_pending = refl

abbrev unparsed : UrlLibrary
unparsed = record {
  parse = λ text. none;
  render = λ u. "";
  with_path = λ path u. u;
  with_scheme = λ scheme u. u;
  with_host = λ host u. u;
  with_port = λ port u. u;
}

abbrev services : Services ℕ
services = record {
  outside = calm;
  is_media_source_id = λ media_id. false;
  resolve_media = λ media_id. returned ("audio/mp3", media_id);
  loads = λ media_id. none;
  platforms = [];
  process_url = λ media_id. returned media_id;
  yarl = unparsed;
  hass = record { is_hass_url = λ url. false; internal = none; external = none };
  overrides = [];
  http = λ url. fails;
  read_string = λ text. parse_error;
  accepts_netloc = λ location. true;
}

abbrev speech : Speech
speech = record {
  render = λ template. if template == "broken" then raised "undefined" else returned template;
  generate_media_source_id = λ message. returned song;
  digest = λ template. "0123456789ab";
  text_of = λ e. "error";
}

announce-Refused_example :
    Refused
      (cause_of (speech.render "broken"))
      idle_world
      (async_announce speech (at 5) services "broken" idle_world)
announce-Refused_example = announce-Refused speech (at 5) services "broken" idle_world refl

-- A speaker and a dynamic group are found, and the group is lost.
abbrev found : Bool → ℕ → Change
found is_dynamic uuid =
    discovered "uuid"
      (record { uuid = some uuid; is_dynamic_group = is_dynamic; has_services = true })

abbrev gone_for_good : Change
gone_for_good = lost (record { uuid = some 8; is_dynamic_group = true; has_services = false })

abbrev first_group_added : Group
first_group_added = record { ident = 0; uuid = 8 }

abbrev history : List Change
history =
    group_returns first_group_added
    ∷ gone_for_good
    ∷ found true 8
    ∷ found false 7
    ∷ found false 7
    ∷ []

once : loses_once [] history ≡ true
unfolding loses_once changes change cast_discovered create_cast_device is_unwanted cast_removed
    listening_groups
once = refl

changes-IsOwned_example : IsOwned (changes [] history)
changes-IsOwned_example = changes-IsOwned [] history once

group_is_gone : (changes [] history).groups ≡ []
unfolding changes change cast_discovered create_cast_device is_unwanted cast_removed set_remove
    listening_groups drop_group group_disconnected
group_is_gone = refl

-- The group is lost twice before its disconnect is through, and found again between the two returns.
abbrev lost_twice : List Change
lost_twice =
    found true 8
    ∷ group_returns first_group_added
    ∷ found true 8
    ∷ group_returns first_group_added
    ∷ gone_for_good
    ∷ found true 8
    ∷ gone_for_good
    ∷ found true 8
    ∷ []

two_listeners :
    (changes [] lost_twice).groups
    ≡ record { ident = 2; uuid = 8 } ∷ record { ident = 1; uuid = 8 } ∷ []
unfolding changes change cast_discovered create_cast_device is_unwanted cast_removed set_remove
    listening_groups drop_group group_disconnected
two_listeners = refl

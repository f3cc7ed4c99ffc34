-- ===== src/Player/PlayMedia.antt =====
-- `async_play_media` of custom_components/cast/media_player.py.
use ha_int_gcast.Base.{
  String, Bool, true, false, Option, none, some, List, [], ◌∷◌, ◌||◌, ◌==◌, string_eq, nat_eq,
  if◌then◌else◌,
}
use ha_int_gcast.Base.Dict.{get, put, remove}
use ha_int_gcast.Base.Result.{Result, returned, raised}
use ha_int_gcast.Base.Action.{pure, raise, read, lift, ◌>>=◌, attempt}
use ha_int_gcast.Health.Types.{Uuid}
use ha_int_gcast.Playlist.Items.{PlaylistItem, Answer}
use ha_int_gcast.Playlist.Lines.{Text}
use ha_int_gcast.Playlist.Pls.{
  Config, Escape, uncaught_interpolation, uncaught_value_error, parse_playlist, ends_with,
}
use ha_int_gcast.Playlist.Texts.{to_string}
use ha_int_gcast.Urls.{Url, UrlLibrary, Instance, url_overrides, rewrite_hass_url}
use ha_int_gcast.Player.Calls.{
  Json, string, value, AppData, Raised, not_implemented, home_assistant, foreign, app_not_supported,
  Method, get_chromecast, start_app_call,
}
use ha_int_gcast.Player.Requests.{Outside, quick_play_tracked, plain_error}
use ha_int_gcast.Health.Ledger.{str_truthy}
use text.Mathlib.Text.{starts_with}

-- What Home Assistant and the libraries do for a play request: media sources, JSON (`none` if it does
-- not parse), the other integrations' cast platforms, which may use the device themselves, relative
-- URLs, yarl, the HTTP session, `configparser`, and the option with the URL overrides.
pub record Services (W : Type 0) : Type 0 where
  pub outside : Outside W
  pub is_media_source_id : String → Bool
  pub resolve_media : String → Result Raised (String × String)
  pub loads : String → Option AppData
  pub platforms : List (String → String → Method W Bool)
  pub process_url : String → Result Raised String
  pub yarl : UrlLibrary
  pub hass : Instance
  pub overrides : List (Option Uuid × String)
  pub http : String → Answer
  pub read_string : Text → Config
  pub accepts_netloc : Text → Bool

-- `{**first, **second}`
unfoldable pub merged : AppData → AppData → AppData
merged first [] = first
merged first ((key, v) ∷ second) = merged (put first key v) second

-- `_apply_url_override`, with the base of this device's override; a rewriting that raises is a
-- ValueError.
abbrev override_with : UrlLibrary → Instance → String → Option String → Result Raised String
override_with y hass media_id none = returned media_id
override_with y hass media_id (some base) = or_value_error (rewrite_hass_url y hass media_id base)
  where
    or_value_error : Option String → Result Raised String
    or_value_error none = raised (foreign "ValueError")
    or_value_error (some url) = returned url

unfoldable pub apply_url_override : {W : Type 0} → Services W → Uuid → String → Result Raised String
apply_url_override s uuid media_id =
    override_with s.yarl s.hass media_id (get (url_overrides s.yarl s.overrides []) uuid)

-- `yarl.URL(media_id).path.startswith("/api/hls/")`, which raises if the URL does not parse
abbrev pub is_hls : Option Url → Result Raised Bool
is_hls none = raised (foreign "ValueError")
is_hls (some u) = returned (starts_with u.path "/api/hls/")

-- The extra data of an HLS stream
abbrev hls_extra : AppData
hls_extra =
    ("stream_type", string "LIVE")
    ∷ ("media_info", value true "{'hlsVideoSegmentFormat': 'fmp4'}")
    ∷ []

abbrev pub with_hls : AppData → Bool → AppData
with_hls extra true = merged extra hls_extra
with_hls extra false = extra

-- `if title := playlist[0].title: extra = {**extra, "metadata": {"title": title}}`
abbrev pub with_title : AppData → Option Text → AppData
with_title extra none = extra
with_title extra (some []) = extra
with_title extra (some (c ∷ title)) = put extra "metadata" (string (to_string (c ∷ title)))

-- What the playlist makes of the media id and the extra data: its first item, or, if it cannot be
-- parsed or the device supports it, what was there before.
abbrev pub first_item : String → AppData → List PlaylistItem → String × AppData
first_item media_id extra [] = (media_id, extra)
first_item media_id extra (item ∷ items) = (to_string item.url, with_title extra item.title)

abbrev pub from_playlist :
    String → AppData → Result Escape (List PlaylistItem) → Result Raised (String × AppData)
from_playlist media_id extra (returned items) = returned (first_item media_id extra items)
from_playlist media_id extra (raised uncaught_interpolation) =
    raised (foreign "InterpolationSyntaxError")
from_playlist media_id extra (raised uncaught_value_error) = raised (foreign "ValueError")
from_playlist media_id extra (raised e) = returned (media_id, extra)

abbrev pub is_playlist : String → Bool
is_playlist media_id =
    ends_with media_id ".m3u" || ends_with media_id ".m3u8" || ends_with media_id ".pls"

abbrev pub hls_prepared : String → AppData → Result Raised Bool → Result Raised (String × AppData)
hls_prepared media_id extra (returned b) = returned (media_id, with_hls extra b)
hls_prepared media_id extra (raised e) = raised e

-- The HLS and the playlist branch
unfoldable pub prepared :
    {W : Type 0} → Services W → String → AppData → Result Raised (String × AppData)
prepared s media_id extra =
    if s.hass.is_hass_url media_id
    then hls_prepared media_id extra (is_hls (s.yarl.parse media_id))
    else if is_playlist media_id
    then from_playlist media_id extra
        (parse_playlist s.accepts_netloc s.read_string s.http media_id)
    else returned (media_id, extra)

module _ {W : Type 0} (s : Services W) where
  -- `media_source.async_resolve_media`, where the id is one of a media source
  unfoldable pub sourced : String → String → Result Raised (String × String)
  sourced media_type media_id =
      if s.is_media_source_id media_id
      then s.resolve_media media_id
      else returned (media_type, media_id)

  -- `except NotImplementedError`
  unfoldable pub supported_app : String → Result Raised (Unit {0}) → Result Raised (Unit {0})
  supported_app app_name (raised not_implemented) =
      raised (
        home_assistant (app_not_supported app_name)
          (some (plain_error false "NotImplementedError")))
  supported_app app_name r = r

  abbrev str : Json → String
  str (string t) = t
  str (value truth t) = t

  -- The branch of a known cast app
  abbrev launch_app : AppData → Option Json → Option Json → Method W (Unit {0})
  launch_app app_data (some app_id) app_name = start_app_call s.outside.answer (str app_id)
  launch_app app_data none none = raise (foreign "KeyError")
  launch_app app_data none (some app_name) = do
    r ← attempt (quick_play_tracked s.outside (str app_name) (remove app_data "app_name") none)
    lift (supported_app (str app_name) r)

  abbrev is_true_value : Json → Bool
  is_true_value (string t) = str_truthy t
  is_true_value (value truth t) = truth

  abbrev with_metadata : AppData → Option Json → AppData
  with_metadata app_data none = app_data
  with_metadata app_data (some metadata) =
      if is_true_value metadata then put app_data "metadata" metadata else app_data

  abbrev play_loaded : AppData → Option AppData → Method W (Unit {0})
  play_loaded extra none = raise (foreign "JSONDecodeError")
  play_loaded extra (some loaded) =
      let app_data = with_metadata loaded (get extra "metadata") in
      launch_app app_data (get app_data "app_id") (get app_data "app_name")

  unfoldable pub play_app : String → AppData → Method W (Unit {0})
  play_app media_id extra = play_loaded extra (s.loads media_id)

  -- The platforms, until one plays the media
  unfoldable pub try_platforms :
      List (String → String → Method W Bool) → String → String → Method W Bool
  try_platforms [] media_type media_id = pure false
  try_platforms (platform ∷ platforms) media_type media_id = do
    played ← platform media_type media_id
    if played then pure true else try_platforms platforms media_type media_id

  -- The default media receiver
  unfoldable pub play_default : String → String → AppData → Method W (Unit {0})
  play_default media_type media_id extra = do
    url ← lift (s.process_url media_id)
    uuid ← read (λ w. w.entity.info.uuid)
    target ← lift (apply_url_override s uuid url)
    final ← lift (prepared s target extra)
    quick_play_tracked s.outside "default_media_receiver"
        (merged (("media_id", string final.0) ∷ ("media_type", string media_type) ∷ []) final.1)
        none

  -- `async_play_media`
  unfoldable pub async_play_media : String → String → AppData → Method W (Unit {0})
  async_play_media media_type media_id extra = do
    c ← get_chromecast
    source ← lift (sourced media_type media_id)
    if source.0 == "cast" then play_app source.1 extra else do
      played ← try_platforms s.platforms source.0 source.1
      if played then pure tt else play_default source.0 source.1 extra

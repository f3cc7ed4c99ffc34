-- ===== src/Player/Target.antt =====
-- What the default media receiver is told to play, and what the ledger waits for
-- (custom_components/cast/media_player.py, the end of `async_play_media`).
use ha_int_gcast.Base.{
  ◌≡◌, ◌++◌, String, Bool, true, false, Option, none, some, List, [], ◌∷◌, string_eq,
}
use ha_int_gcast.Base.Dict.{get}
use ha_int_gcast.Base.Result.{Result, returned, raised, ◌>>=◌}
use ha_int_gcast.Health.Types.{Uuid}
use ha_int_gcast.Player.Types.{Chromecast}
use ha_int_gcast.Player.Calls.{string, AppData, Command, quick_play, Raised, World}
use ha_int_gcast.Player.Requests.{Outside}
use ha_int_gcast.Player.Tracked.{Ends}
use ha_int_gcast.Player.PlayMedia.{Services, merged, apply_url_override, prepared}

-- The key "media_id" is not set.
abbrev pub names_no_media : AppData → Bool
names_no_media extra = elim (get extra "media_id") [ none ↦ true | some v ↦ false ]

-- The steps before the play request set no media id in the extra data.
abbrev keeps_none : Result Raised (String × AppData) → Bool
keeps_none (returned final) = names_no_media final.1
keeps_none (raised e) = true

-- What the device is sent: the play command, if there is a device.
abbrev pub commanded : Option Chromecast → String → AppData → List Command
commanded none app_name app_data = []
commanded (some c) app_name app_data = quick_play app_name app_data ∷ []

-- Nothing that runs meanwhile takes back a command that was sent.
pub record KeepsSent {W : Type 0} (f : World W → World W) : Type 0 where
  pub sent : (w : World W) → (more : List Command) × ((f w).sent ≡ w.sent ++ more)

-- The app data for a media id
abbrev pub data_for : String → String → AppData → AppData
data_for media_type url extra =
    merged (("media_id", string url) ∷ ("media_type", string media_type) ∷ []) extra

-- The device is told to play `url`, and the ledger waits for that very content.
pub record PlaysAt {W : Type 0} (out : Outside W) (media_type url : String) (extra : AppData)
    (w : World W) (end : Result Raised (Unit {0}) × World W) : Type 0 where
  pub names_url : get (data_for media_type url extra) "media_id" ≡ some (string url)
  pub more : List Command
  pub sent :
      end.1.sent
      ≡ (w.sent
          ++ commanded w.entity.chromecast "default_media_receiver" (data_for media_type url extra))
        ++ more
  pub ends : Ends out w.entity.info.uuid url w.entity.request_source end

module _ {W : Type 0} (s : Services W) where
  -- Where the default receiver is sent: the absolute URL, moved to this device's base, and then the
  -- first item of a playlist.
  unfoldable pub address : Uuid → String → AppData → Result Raised (String × AppData)
  address uuid media_id extra = s.process_url media_id >>= λ url.
      apply_url_override s uuid url >>= λ moved. prepared s moved extra

  -- A request for that address, or the exception that kept it from being found, with nothing done.
  unfoldable pub Played :
      String
      → World W
      → Result Raised (String × AppData)
      → Result Raised (Unit {0}) × World W
      → Type 0
  Played media_type w (returned (url, extra)) end = PlaysAt s.outside media_type url extra w end
  Played media_type w (raised e) end = end ≡ (raised e, w)

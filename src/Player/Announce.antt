-- ===== src/Player/Announce.antt =====
-- `async_announce` of custom_components/cast/media_player.py. The rendering of a template and the text to
-- speech integration are parameters.
use ha_int_gcast.Base.{String, Bool, true, false, Option, none, some, [], not, if◌then◌else◌}
use ha_int_gcast.Base.Result.{Result, returned, raised}
use ha_int_gcast.Base.Action.{pure, raise, write, ◌>>=◌, ◌>>◌, finally}
use ha_int_gcast.Health.Outcome.{template_error}
use ha_int_gcast.Health.Types.{Moment, Thrown, literal}
use ha_int_gcast.Health.Ledger.{str_truthy}
use ha_int_gcast.Health.Requests.{record_outcome}
use ha_int_gcast.Playlist.Lines.{is_space}
use ha_int_gcast.Repairs.Manager.{RepairManager, template_error as repair_template_error}
use ha_int_gcast.Topology.Address.{code_points}
use ha_int_gcast.Urls.{strip_front, strip_back}
use ha_int_gcast.Player.Calls.{Raised, home_assistant, template_failed, World, Method}
use ha_int_gcast.Player.Requests.{on_ledger, plain_error}
use ha_int_gcast.Player.PlayMedia.{Services, async_play_media}
use Prim.Native.String.{◌++◌ as str_append}

-- `Template.async_render`, with the text of a TemplateError, `generate_media_source_id` for the
-- rendered message, the first digits of a template's digest, and the text of an exception.
pub record Speech : Type 0 where
  pub render : String → Result String String
  pub generate_media_source_id : String → Result Raised String
  pub digest : String → String
  pub text_of : Raised → String

abbrev on_repairs : (RepairManager → RepairManager) → Option RepairManager → Option RepairManager
on_repairs f none = none
on_repairs f (some m) = some (f m)

-- `str(rendered).strip()`
unfoldable pub stripped : String → String
stripped text = strip_back is_space (strip_front is_space text)

-- The TemplateError of a rendering that raised
abbrev pub template_error_raised : String → Thrown
template_error_raised error = plain_error false (str_append "TemplateError: " error)

module _ {W : Type 0} (speech : Speech) (now : Moment) where
  -- `repairs.async_template_error`
  abbrev tell_repairs : String → String → Bool → World W → World W
  tell_repairs template error resolved w = record w {
    repairs =
        on_repairs
          (repair_template_error (speech.digest template) w.entity.entity_id (code_points template)
            error resolved)
          w.repairs;
  }

  -- An announcement that fails before it plays
  unfoldable pub record_template_error : String → World W → World W
  record_template_error error w =
      on_ledger
        (record_outcome now w.entity.info.uuid template_error "announce" none (some (literal error))
          false)
        w

  -- `_async_template_failed`
  unfoldable pub async_template_failed : String → String → World W → World W
  async_template_failed template error w =
      tell_repairs template error false
        (record_template_error (str_append "template failed to render: " error) w)

  -- `ServiceValidationError`, raised from a TemplateError or from nothing
  unfoldable pub refuse : String → String → Option Thrown → Method W String
  refuse template error cause = do
    write (async_template_failed template error)
    raise (home_assistant (template_failed error) cause)

  unfoldable pub rendered_message : String → Result String String → Method W String
  rendered_message template (raised error) =
      refuse template error (some (template_error_raised error))
  rendered_message template (returned text) =
      let message = stripped text in
      if not (str_truthy message)
      then refuse template "template rendered to an empty message" none
      else do write (tell_repairs template "" true); pure message

  unfoldable pub media_source_of : Result Raised String → Method W String
  media_source_of (returned media_id) = pure media_id
  media_source_of (raised (home_assistant reason cause)) = do
    write (
        record_template_error
          (str_append "TTS engine unavailable: " (speech.text_of (home_assistant reason cause))))
    raise (home_assistant reason cause)
  media_source_of (raised e) = raise e

  abbrev pub set_source : String → World W → World W
  set_source source w = record w { entity = record w.entity { request_source = source } }

  -- `async_announce`
  unfoldable pub async_announce : Services W → String → Method W (Unit {0})
  async_announce s template = do
    message ← rendered_message template (speech.render template)
    media_id ← media_source_of (speech.generate_media_source_id message)
    write (set_source "announce")
    finally (async_play_media s "music" media_id []) (set_source "play_media")

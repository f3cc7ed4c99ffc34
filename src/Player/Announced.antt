-- ===== src/Player/Announced.antt =====
-- What an announcement (custom_components/cast/media_player.py, `async_announce`) leaves behind.
use ha_int_gcast.Base.{
  ◌≡◌, refl, String, Bool, true, false, Option, none, some, not, Bool-cases, inl, inr, arith,
}
use ha_int_gcast.Base.Result.{Result, returned, raised}
use ha_int_gcast.Base.Action.{Action, continue_with}
use ha_int_gcast.Health.Outcome.{template_error}
use ha_int_gcast.Health.Types.{Moment, Thrown}
use ha_int_gcast.Health.Ledger.{str_truthy}
use ha_int_gcast.Health.Recorded.{Recorded, record_outcome-Recorded}
use ha_int_gcast.Player.Calls.{
  Raised, cast_error, timeout_error, not_implemented, home_assistant, foreign, template_failed,
  World, Method,
}
use ha_int_gcast.Player.PlayMedia.{Services}
use ha_int_gcast.Player.Announce.{
  Speech, template_error_raised, stripped, record_template_error, async_template_failed, refuse,
  rendered_message, media_source_of, async_announce,
}

-- What holds after a method, and is kept by what goes on after it, holds in the end.
continue_with-keeps :
    {S E A B : Type 0} (P : S → Type 0) (f : A → Action S E B) (r : Result E A × S)
    → P r.1
    → ((a : A) (s : S) → P s → P (f a s).1)
    → P (continue_with f r).1
continue_with-keeps P f (returned a, s) h k = k a s h
continue_with-keeps P f (raised e, s) h k = h

-- The template cannot be rendered, or nothing of it is left.
abbrev pub is_unusable : Result String String → Bool
is_unusable (raised error) = true
is_unusable (returned text) = not (str_truthy (stripped text))

-- What the error of a refusal is raised from
abbrev pub cause_of : Result String String → Option Thrown
cause_of (raised error) = some (template_error_raised error)
cause_of (returned text) = none

-- An announcement that was refused: the caller gets the error with its cause, the ledger one record of a template
-- error, and the device nothing.
pub record Refused {W : Type 0} (cause : Option Thrown) (w : World W)
    (end : Result Raised (Unit {0}) × World W) : Type 0 where
  pub error : String
  pub told : end.0 ≡ raised (home_assistant (template_failed error) cause)
  pub recorded : Recorded w.entity.info.uuid template_error "announce" w.ledger end.1.ledger
  pub nothing_sent : end.1.sent ≡ w.sent

module _ {W : Type 0} (speech : Speech) (now : Moment) (s : Services W) (template : String) where
  abbrev HasSource : World W → Type 0
  HasSource w = w.entity.request_source ≡ "play_media"

  rendered_message-keeps :
      (r : Result String String) (w : World W)
      → HasSource w
      → HasSource (rendered_message speech now template r w).1
  unfolding rendered_message refuse async_template_failed record_template_error
  rendered_message-keeps (raised error) w h = h
  rendered_message-keeps (returned text) w h = elim (Bool-cases (str_truthy (stripped text))) [
    | inl there ↦ rw there h
    | inr empty ↦ rw empty h
  ]

  media_source_of-keeps :
      (r : Result Raised String) (w : World W)
      → HasSource w
      → HasSource (media_source_of speech now r w).1
  unfolding media_source_of record_template_error
  media_source_of-keeps (returned media_id) w h = h
  media_source_of-keeps (raised (home_assistant reason cause)) w h = h
  media_source_of-keeps (raised (cast_error t)) w h = h
  media_source_of-keeps (raised (timeout_error t)) w h = h
  media_source_of-keeps (raised not_implemented) w h = h
  media_source_of-keeps (raised (foreign name)) w h = h

  -- However an announcement ends, and whatever the play request, the platforms or the event loop did
  -- to the entity, the source of the next play request is "play_media" again.
  pub announce-restores :
      (w : World W)
      → w.entity.request_source ≡ "play_media"
      → (async_announce speech now s template w).1.entity.request_source ≡ "play_media"
  unfolding async_announce
  announce-restores w h =
      continue_with-keeps HasSource _
        (rendered_message speech now template (speech.render template) w)
        (rendered_message-keeps (speech.render template) w h)
        (λ message v k.
          continue_with-keeps HasSource _
            (media_source_of speech now (speech.generate_media_source_id message) v)
            (media_source_of-keeps (speech.generate_media_source_id message) v k)
            (λ media_id u j. refl))

  refuse-Refused :
      (error : String) (cause : Option Thrown) (f : String → Method W (Unit {0})) (w : World W)
      → Refused cause w (continue_with f (refuse speech now template error cause w))
  unfolding refuse async_template_failed record_template_error
  refuse-Refused error cause f w = record {
    error = error;
    told = refl;
    recorded =
        record_outcome-Recorded now w.entity.info.uuid template_error "announce" none _ false
          w.ledger;
    nothing_sent = refl;
  }

  unusable-Refused :
      (r : Result String String) (f : String → Method W (Unit {0})) (w : World W)
      → is_unusable r ≡ true
      → Refused (cause_of r) w (continue_with f (rendered_message speech now template r w))
  unfolding rendered_message
  unusable-Refused (raised error) f w h =
      refuse-Refused error (some (template_error_raised error)) f w
  unusable-Refused (returned text) f w h =
      let empty : str_truthy (stripped text) ≡ false = ground arith in
      rw empty (refuse-Refused "template rendered to an empty message" none f w)

  -- An announcement whose template fails to render, or renders to nothing but white space, tells its
  -- caller, sends the device nothing, and leaves one record of a template error. An announcement that
  -- was still pending is resolved by that record; any other request stays pending.
  pub announce-Refused :
      (w : World W)
      → is_unusable (speech.render template) ≡ true
      → Refused (cause_of (speech.render template)) w (async_announce speech now s template w)
  unfolding async_announce
  announce-Refused w h = unusable-Refused (speech.render template) _ w h

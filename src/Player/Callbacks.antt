-- ===== src/Player/Callbacks.antt =====
-- The connection and the status callbacks of `CastMediaPlayerEntity`,
-- custom_components/cast/media_player.py. A step that reads the clock takes the time at which it runs.
use ha_int_gcast.Base.{
  ℕ, zero, suc, ◌++◌, String, Bool, false, Option, none, some, List, [], ◌∷◌, not, ◌&&◌, ◌==◌,
  string_eq, nat_eq, if◌then◌else◌, bool_beq,
}
use ha_int_gcast.Base.Dict.{put}
use ha_int_gcast.Health.Types.{Uuid, Moment}
use ha_int_gcast.Health.Ledger.{Ledger}
use ha_int_gcast.Health.Requests.{media_status, load_media_failed}
use ha_int_gcast.Topology.Types.{ChromecastInfo}
use ha_int_gcast.Callbacks.{Registrations, new_listener}
use ha_int_gcast.Player.Types.{
  MediaStatus, CastStatus, Chromecast, Multizone, Write, sets_status, sets_time, schedules, Entity,
}

-- `schedule_update_ha_state` and `async_write_ha_state`
abbrev pub write_state : Entity → Entity
write_state e = record e { updates = suc e.updates }

-- `_invalidate`; the listener is told, and forgotten.
unfoldable pub invalidate_entity : Entity → Entity
invalidate_entity e = record e {
  chromecast = none;
  mz_mgr = none;
  status_listener = none;
  cast_status = none;
  media_status = none;
  media_status_received = none;
  mz_media_status = [];
  mz_media_status_received = [];
  hass_cast_controller = none;
}

-- `_async_connect_to_chromecast`, with the chromecast that pychromecast makes and the multizone
-- manager of the entry
unfoldable pub connect : ℕ → Chromecast → Multizone → Registrations → Entity → Entity
connect ident c mz registrations e = write_state (record e {
  chromecast = some c;
  mz_mgr = some mz;
  status_listener = some (new_listener ident c.uuid e.info.is_audio_group false registrations);
  available = false;
  cast_status = c.status;
  media_status = some c.media_controller_status;
})

-- `_async_disconnect`
unfoldable pub disconnect : Entity → Entity
disconnect e = write_state (record (invalidate_entity e) { available = false })

-- `_async_cast_discovered`
unfoldable pub rediscovered : ChromecastInfo → Entity → Entity
rediscovered discover e = if e.info.uuid == discover.uuid then record e { info = discover } else e

-- `new_cast_status`
abbrev volume_of : Option CastStatus → Option ℕ
volume_of none = none
volume_of (some s) = some s.volume_level

abbrev muted_of : Option CastStatus → Option Bool
muted_of none = none
muted_of (some s) = some s.volume_muted

unfoldable pub on_cast_status : Option CastStatus → Entity → Entity
on_cast_status status e = write_state (record e {
  cast_status = status;
  volume_level = volume_of status;
  is_volume_muted = muted_of status;
})

-- `new_media_status`, on the entity
unfoldable pub on_media_status : Moment → Option MediaStatus → Entity → Entity
on_media_status now status e =
    write_state (record e { media_status = status; media_status_received = some now.utc })

-- `multizone_new_media_status` begins: both writes are ahead.
unfoldable pub on_group_status : String → Option MediaStatus → Entity → Entity
on_group_status group status e = record e { unfinished = sets_status group status ∷ e.unfinished }

unfoldable pub nth_write : ℕ → List Write → Option Write
nth_write n [] = none
nth_write zero (w ∷ ws) = some w
nth_write (suc n) (w ∷ ws) = nth_write n ws

unfoldable pub without_nth : ℕ → List Write → List Write
without_nth n [] = []
without_nth zero (w ∷ ws) = ws
without_nth (suc n) (w ∷ ws) = w ∷ without_nth n ws

-- One write of a callback that is under way
abbrev pub written : Moment → Option Write → List Write → Entity → Entity
written now none rest e = e
written now (some (sets_status group status)) rest e = record e {
  mz_media_status = put e.mz_media_status group status;
  unfinished = sets_time group ∷ rest;
}
written now (some (sets_time group)) rest e = write_state (record e {
  mz_media_status_received = put e.mz_media_status_received group now.utc;
  unfinished = rest;
})
written now (some schedules) rest e = write_state (record e { unfinished = rest })

unfoldable pub go_on_writing : Moment → ℕ → Entity → Entity
go_on_writing now n e = written now (nth_write n e.unfinished) (without_nth n e.unfinished) e

-- The poll of `new_connection_status`: what it has to write
abbrev pub polled : String → Option MediaStatus → List Write → List Write
polled group none writes = writes
polled group (some status) writes = sets_status group (some status) ∷ writes

unfoldable pub poll : Multizone → List String → List Write
poll mz [] = schedules ∷ []
poll mz (group ∷ groups) = polled group (mz.controller_status group) (poll mz groups)

abbrev pub poll_groups : Option Multizone → List Write
poll_groups none = schedules ∷ []
poll_groups (some mz) = poll mz mz.memberships

-- `new_connection_status`, when the connection was not lost
abbrev pub availability_changed : Bool → Entity → Entity
availability_changed new_available e =
    if new_available && not e.info.is_audio_group
    then record e { available = new_available; unfinished = poll_groups e.mz_mgr ++ e.unfinished }
    else write_state (record e { available = new_available })

-- `new_connection_status`, by `connection_status.status`
unfoldable pub on_connection_status : String → Entity → Entity
on_connection_status status e =
    if status == "DISCONNECTED"
    then write_state (invalidate_entity (record e { available = false }))
    else let new_available = status == "CONNECTED" in
      if bool_beq new_available e.available then e else availability_changed new_available e

module _ {W : Type 0} where
  -- The ledger's half of `new_media_status`, which the event loop runs
  unfoldable pub report_status : Moment → Uuid → Option MediaStatus → Ledger W → Ledger W
  report_status now uuid none l = l
  report_status now uuid (some status) l = media_status now uuid status.plain l

  -- `load_media_failed`
  unfoldable pub report_load_failed : Moment → Uuid → ℕ → ℕ → Ledger W → Ledger W
  report_load_failed now uuid queue_item_id error_code l =
      load_media_failed now uuid (some queue_item_id) (some error_code) l

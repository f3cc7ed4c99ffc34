-- ===== src/Player/Lifecycle.antt =====
-- The life of a `CastMediaPlayerEntity` (custom_components/cast/media_player.py): the event loop and the
-- callbacks that its status listener lets through, in any order. The writes of a group's status are
-- steps of their own, since the callbacks run on threads of pychromecast.
use ha_int_gcast.Base.{
  ℕ, String, Bool, true, false, not, ◌&&◌, ◌==◌, string_eq, Option, none, some, List, [], ◌∷◌,
  if◌then◌else◌,
}
use ha_int_gcast.Health.Types.{Moment}
use ha_int_gcast.Topology.Types.{ChromecastInfo}
use ha_int_gcast.Callbacks.{Registrations, StatusListener}
use ha_int_gcast.Player.Types.{MediaStatus, CastStatus, Chromecast, Multizone, Entity, new_entity}
use ha_int_gcast.Player.Callbacks.{
  connect, disconnect, rediscovered, on_cast_status, on_media_status, on_group_status,
  on_connection_status, go_on_writing,
}

-- A callback of the status listener
pub data Reception : Type 0 where
  cast_status : Option CastStatus → Reception
  media_status : Option MediaStatus → Reception
  connection_status : String → Reception
  group_status : String → Option MediaStatus → Reception

unfoldable pub react : Moment → Reception → Entity → Entity
react now (cast_status status) e = on_cast_status status e
react now (media_status status) e = on_media_status now status e
react now (connection_status status) e = on_connection_status status e
react now (group_status group status) e = on_group_status group status e

-- A callback reaches the entity while its listener is valid.
abbrev pub heard : Moment → Reception → Option StatusListener → Entity → Entity
heard now r none e = e
heard now r (some listener) e = if listener.valid then react now r e else e

pub data Occurrence : Type 0 where
  connects : ℕ → Chromecast → Multizone → Registrations → Occurrence
  disconnects : Occurrence
  discovers : ChromecastInfo → Occurrence
  receives : Reception → Occurrence
  writes_on : ℕ → Occurrence

unfoldable pub occur : Moment → Occurrence → Entity → Entity
occur now (connects ident c mz registrations) e = connect ident c mz registrations e
occur now disconnects e = disconnect e
occur now (discovers info) e = rediscovered info e
occur now (receives r) e = heard now r e.status_listener e
occur now (writes_on n) e = go_on_writing now n e

-- The life of an entity, the last occurrence first
unfoldable pub alive : String → ChromecastInfo → List (Moment × Occurrence) → Entity
alive entity_id info [] = new_entity entity_id info
alive entity_id info ((now, o) ∷ earlier) = occur now o (alive entity_id info earlier)

-- Does an occurrence take the connection away?
abbrev pub is_cut : Occurrence → Bool
is_cut disconnects = true
is_cut (receives (connection_status status)) = status == "DISCONNECTED"
is_cut _ = false

abbrev pub is_idle : Entity → Bool
is_idle e = elim e.unfinished [ [] ↦ true | w ∷ ws ↦ false ]

-- No callback is under way when the connection goes.
unfoldable pub is_undisturbed : String → ChromecastInfo → List (Moment × Occurrence) → Bool
is_undisturbed entity_id info [] = true
is_undisturbed entity_id info ((now, o) ∷ earlier) =
    not (is_cut o && not (is_idle (alive entity_id info earlier)))
    && is_undisturbed entity_id info earlier

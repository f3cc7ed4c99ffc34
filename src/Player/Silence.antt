-- ===== src/Player/Silence.antt =====
-- What an entity of custom_components/cast/media_player.py shows while it has no chromecast.
use ha_int_gcast.Base.{
  String, Bool, false, true, none, List, [], ◌∷◌, ◌≡◌, refl, arith, if◌then◌else◌,
}
use ha_int_gcast.Health.Types.{Moment}
use ha_int_gcast.Topology.Types.{ChromecastInfo}
use ha_int_gcast.Player.Types.{Entity}
use ha_int_gcast.Player.Media.{
  AppIds, state, media_selection, first_group, selected, is_uninformative, shown_status,
  shown_received,
}
use ha_int_gcast.Player.Attributes.{
  content_type, media_content_id, media_content_type, media_position, media_position_updated_at,
  Feature, play_media, turn_off, turn_on, browse_media, supported_features, probe_snapshot,
  shows_dashboard,
}
use ha_int_gcast.Player.Lifecycle.{Occurrence, alive, is_undisturbed}
use ha_int_gcast.Player.Sound.{held, IsBlank, linked, blank}
use ha_int_gcast.Player.Keeps.{alive-IsSound}

-- The features that need no connection
abbrev pub idle_features : Bool → List Feature
idle_features has_media_source =
    play_media ∷ turn_off ∷ turn_on ∷ (if has_media_source then browse_media ∷ [] else [])

-- No state, no media, no snapshot to probe, and no feature that acts on a medium.
pub record ShowsNothing (ids : AppIds) (has_media_source : Bool) (e : Entity) : Type 0 where
  pub unavailable : e.available ≡ false
  pub no_state : state ids e ≡ none
  pub no_status : media_selection e ≡ selected none none
  pub no_content : media_content_id ids e ≡ none
  pub no_type : media_content_type ids e ≡ content_type none
  pub no_position : media_position ids e ≡ none
  pub no_time : media_position_updated_at ids e ≡ none
  pub no_snapshot : probe_snapshot e ≡ none
  pub few_features : supported_features ids has_media_source e ≡ idle_features has_media_source

blank_selection : (e : Entity) → IsBlank (held e) → media_selection e ≡ selected none none
unfolding media_selection first_group is_uninformative
blank_selection e b = ground (arith, b.no_media, b.no_groups, b.no_received)

blank_dashboard : (ids : AppIds) (e : Entity) → e.chromecast ≡ none → shows_dashboard ids e ≡ false
blank_dashboard ids e h = ground (arith, h)

blank-ShowsNothing :
    (ids : AppIds) (has_media_source : Bool) (e : Entity)
    → e.chromecast ≡ none
    → IsBlank (held e)
    → ShowsNothing ids has_media_source e
unfolding state media_content_id media_content_type media_position media_position_updated_at
    probe_snapshot supported_features shown_status shown_received
blank-ShowsNothing ids m e h b =
    let selection = blank_selection e b in
    let dashboard = blank_dashboard ids e h in
    record {
      unavailable = b.unavailable;
      no_state = simp (h) refl;
      no_status = selection;
      no_content = simp (selection, dashboard) refl;
      no_type = simp (selection, dashboard) refl;
      no_position = simp (selection, dashboard) refl;
      no_time = simp (selection, dashboard) refl;
      no_snapshot = simp (h) refl;
      few_features = simp (selection, dashboard, b.no_cast_status) refl;
    }

-- However an entity came to have no chromecast, because it never had one or by a disconnection, while
-- no callback of it was under way at any disconnection, it is unavailable and shows no state, no media
-- and no position, gives the probe nothing to look at, and offers no feature that acts on a medium.
pub alive-ShowsNothing :
    (ids : AppIds) (has_media_source : Bool) (entity_id : String) (info : ChromecastInfo)
    (life : List (Moment × Occurrence))
    → is_undisturbed entity_id info life ≡ true
    → (alive entity_id info life).chromecast ≡ none
    → ShowsNothing ids has_media_source (alive entity_id info life)
alive-ShowsNothing ids m entity_id info life calm h =
    elim (alive-IsSound entity_id info life calm).link [
      | linked c mz hc hm ↦ absurd (ground arith)
      | blank hc b ↦ blank-ShowsNothing ids m (alive entity_id info life) h b
    ]

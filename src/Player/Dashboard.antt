-- ===== src/Player/Dashboard.antt =====
-- The dashboard controller of an entity, custom_components/cast/media_player.py:
-- `_handle_signal_show_view` and its `unregister`.
use ha_int_gcast.Base.{
  ℕ, suc, String, Bool, true, Option, none, some, List, [], ◌∷◌, ◌++◌, is_some, not, ◌==◌,
  string_eq, nat_eq, if◌then◌else◌,
}
use ha_int_gcast.Player.Types.{Entity}

-- A view of a dashboard
pub record View : Type 0 where
  pub view_path : String
  pub url_path : Option String

-- The entity with the handlers that are registered on its chromecast, the views that each controller
-- was told to show, and the number of the next controller.
pub record Screen : Type 0 where
  pub entity : Entity
  pub handlers : List ℕ
  pub shown : List (ℕ × View)
  pub next_controller : ℕ

-- `if self._hass_cast_controller is None: …`
abbrev with_controller : Option ℕ → Screen → Screen
with_controller (some controller) s = s
with_controller none s = record s {
  entity = record s.entity { hass_cast_controller = some s.next_controller };
  handlers = s.handlers ++ s.next_controller ∷ [];
  next_controller = suc s.next_controller;
}

abbrev shown_on : Option ℕ → View → List (ℕ × View) → List (ℕ × View)
shown_on none view shown = shown
shown_on (some controller) view shown = shown ++ (controller, view) ∷ []

-- `show_lovelace_view`
abbrev shows : View → Screen → Screen
shows view s = record s { shown = shown_on s.entity.hass_cast_controller view s.shown }

-- `_handle_signal_show_view`
unfoldable pub show_view : String → View → Screen → Screen
show_view entity_id view s =
    if not (entity_id == s.entity.entity_id)
    then s
    else if not (is_some s.entity.chromecast)
    then s
    else shows view (with_controller s.entity.hass_cast_controller s)

unfoldable pub without_handler : ℕ → List ℕ → List ℕ
without_handler controller [] = []
without_handler controller (h ∷ hs) =
    let rest = without_handler controller hs in if h == controller then hs else h ∷ rest

abbrev without_controller : Option ℕ → Bool → Screen → Screen
without_controller (some controller) true s = record s {
  entity = record s.entity { hass_cast_controller = none };
  handlers = without_handler controller s.handlers;
}
without_controller controller connected s = s

-- `unregister`
unfoldable pub unregister : Screen → Screen
unregister s = without_controller s.entity.hass_cast_controller (is_some s.entity.chromecast) s

-- ===== src/Callbacks/Examples.antt =====
-- The theorem on `CastStatusListener` (custom_components/cast/helpers.py) at a concrete input, and tests.
use ha_int_gcast.Base.{◌≡◌, refl, true, false, List, [], ◌∷◌}
use ha_int_gcast.Callbacks.{
  Registrations, StatusListener, new_listener, new_cast_status, removed_from_multizone,
  ListenerEvent, arrives, invalidates, deliver, before_invalidation, deliver-before_invalidation,
  invalidate, without_entry,
}

abbrev unregistered : Registrations
unregistered = record { on_chromecast = []; multizones = []; multizone_listeners = [] }

abbrev listener : StatusListener
listener = record { ident = 1; uuid = 7; valid = true; registrations = unregistered }

abbrev events : List ListenerEvent
events =
    arrives (new_cast_status 4) ∷ invalidates false ∷ arrives (removed_from_multizone "group") ∷ []

deliver-before_invalidation_example : deliver listener events ≡ before_invalidation events
deliver-before_invalidation_example = deliver-before_invalidation listener events refl

-- A listener of a device leaves the multizone manager as it found it.
unregisters :
    (invalidate false (new_listener 1 7 false false unregistered)).registrations.multizone_listeners
    ≡ []
unfolding invalidate new_listener without_entry
unregisters = refl

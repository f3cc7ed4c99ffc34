-- ===== src/Sensors/Examples.antt =====
-- The theorem on custom_components/cast/sensor.py at a concrete input, and tests.
use ha_int_gcast.Base.{◌≡◌, refl, Bool, true, false, Option, none, some, List, [], ◌∷◌}
use ha_int_gcast.Health.Types.{Moment}
use ha_int_gcast.Health.Ledger.{Urls, health_at, store, device}
use ha_int_gcast.Health.Run.{init}
use ha_int_gcast.Base.Dict.{get, put}
use ha_int_gcast.Topology.Types.{ChromecastInfo}
use ha_int_gcast.Sensors.Setup.{HealthPlatform, all_discovered}
use ha_int_gcast.Sensors.Values.{stored_text, restore_last_success, last_success_value}
use ha_int_gcast.Sensors.Once.{sensors_of, sensors_of_first, first_counted, sensors-first}

abbrev urls : Urls
urls = record { overrides = []; internal = none; external = none }

abbrev empty_platform : HealthPlatform (Unit {0})
unfolding init
empty_platform = record { added_health_devices = []; ledger = init urls tt; sensors = [] }

abbrev kitchen : Bool → Option Bool → ChromecastInfo
kitchen is_group is_dynamic = record {
  uuid = 7;
  friendly_name = some "Kitchen";
  host = some "10.0.0.7";
  port = some 8009;
  is_audio_group = is_group;
  is_dynamic_group = is_dynamic;
}

-- A dynamic group that turns out to be none, and then is found again
abbrev found : List (Moment × ChromecastInfo)
found =
    (record { utc = 3; monotonic = 3 }, kitchen false none)
    ∷ (record { utc = 2; monotonic = 2 }, kitchen true (some false))
    ∷ (record { utc = 1; monotonic = 1 }, kitchen true (some true))
    ∷ []

nothing_added : empty_platform.added_health_devices ≡ []
unfolding empty_platform
nothing_added = refl

no_sensors : empty_platform.sensors ≡ []
unfolding empty_platform
no_sensors = refl

sensors-first_example :
    sensors_of 7 (all_discovered [] (λ u. "7") true found empty_platform).sensors
    ≡ sensors_of_first true (first_counted [] (λ u. "7") 7 found)
sensors-first_example =
    sensors-first [] (λ u. "7") true empty_platform nothing_added no_sensors 7 found

restored_once :
    last_success_value
      (restore_last_success (λ t. some 9) 7 (some (stored_text "then")) (init urls tt))
      7
    ≡ some 9
unfolding last_success_value restore_last_success init store device health_at get put
restored_once = refl

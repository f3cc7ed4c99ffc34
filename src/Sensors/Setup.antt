-- ===== src/Sensors/Setup.antt =====
-- `async_setup_entry` of custom_components/cast/sensor.py: which sensors a discovery creates.
use ha_int_gcast.Base.{
  String, Bool, true, false, none, List, [], ◌∷◌, ◌++◌, map, ◌&&◌, ◌||◌, contains, or_else, nat_eq,
  if◌then◌else◌,
}
use ha_int_gcast.Health.Types.{Uuid, Moment}
use ha_int_gcast.Health.Ledger.{Ledger}
use ha_int_gcast.Health.Requests.{update_identity}
use ha_int_gcast.Topology.Types.{ChromecastInfo}
use ha_int_gcast.Player.Setup.{is_unwanted}

pub data Sensor : Type 0 where
  outcome_sensor last_success_sensor leader_sensor : Sensor

-- `runtime_data.added_health_devices`, the ledger, and the sensors that were added
pub record HealthPlatform (W : Type 0) : Type 0 where
  pub added_health_devices : List Uuid
  pub ledger : Ledger W
  pub sensors : List (Uuid × Sensor)

-- `entities`; `has_topology` is whether `runtime_data` has its topology tracker.
unfoldable pub sensors_for : Bool → ChromecastInfo → List Sensor
sensors_for has_topology info =
    if info.is_audio_group && has_topology
    then outcome_sensor ∷ last_success_sensor ∷ leader_sensor ∷ []
    else outcome_sensor ∷ last_success_sensor ∷ []

module _ {W : Type 0} (wanted : List String) (str : Uuid → String) (has_topology : Bool) where
  abbrev pub add_sensors : Moment → ChromecastInfo → HealthPlatform W → HealthPlatform W
  add_sensors now info p = record {
    added_health_devices = info.uuid ∷ p.added_health_devices;
    ledger =
        update_identity now info.uuid
          (record {
            entity_id = none;
            name = info.friendly_name;
            host = info.host;
            port = info.port;
            seen = true;
          })
          p.ledger;
    sensors = p.sensors ++ map (λ k. (info.uuid, k)) (sensors_for has_topology info);
  }

  -- `async_cast_discovered`
  unfoldable pub health_discovered : Moment → ChromecastInfo → HealthPlatform W → HealthPlatform W
  health_discovered now info p =
      if is_unwanted wanted (str info.uuid)
      then p
      else if or_else info.is_dynamic_group false || contains info.uuid p.added_health_devices
      then p
      else add_sensors now info p

  -- Any discoveries, the last one first
  unfoldable pub all_discovered :
      List (Moment × ChromecastInfo) → HealthPlatform W → HealthPlatform W
  all_discovered [] p = p
  all_discovered ((now, info) ∷ earlier) p = health_discovered now info (all_discovered earlier p)

-- ===== src/Sensors/Once.antt =====
-- How often a device gets its sensors (custom_components/cast/sensor.py).
use ha_int_gcast.Base.{
  ◌≡◌, refl, String, Bool, false, Option, none, some, List, [], ◌∷◌, ◌++◌, append_nil, map, not,
  ◌&&◌, contains, or_else, or_option, is_some, Bool-cases, inl, inr, arith, same_iff, ◌==◌, nat_eq,
  if◌then◌else◌,
}
use ha_int_gcast.Health.Types.{Uuid, Moment}
use ha_int_gcast.Topology.Types.{ChromecastInfo}
use ha_int_gcast.Player.Setup.{is_unwanted}
use ha_int_gcast.Sensors.Setup.{
  Sensor, HealthPlatform, sensors_for, health_discovered, all_discovered,
}

-- The sensors of a uuid, in their order
unfoldable pub sensors_of : Uuid → List (Uuid × Sensor) → List Sensor
sensors_of u [] = []
sensors_of u ((v, k) ∷ rest) = let later = sensors_of u rest in if v == u then k ∷ later else later

sensors_of-append :
    (u : Uuid) (xs ys : List (Uuid × Sensor))
    → sensors_of u (xs ++ ys) ≡ sensors_of u xs ++ sensors_of u ys
unfolding sensors_of
sensors_of-append u [] ys = refl
sensors_of-append u ((v, k) ∷ xs) ys = ground (arith, sensors_of-append u xs ys)

sensors_of-own :
    (u v : Uuid) (ks : List Sensor)
    → sensors_of u (map (λ k. (v, k)) ks) ≡ (if v == u then ks else [])
unfolding sensors_of
sensors_of-own u v [] = ground arith
sensors_of-own u v (k ∷ ks) = ground (arith, sensors_of-own u v ks)

-- What the sensors of a uuid become by those of `v`
sensors_of-added :
    (u v : Uuid) (xs : List (Uuid × Sensor)) (ks : List Sensor)
    → sensors_of u (xs ++ map (λ k. (v, k)) ks)
      ≡ (if v == u then sensors_of u xs ++ ks else sensors_of u xs)
sensors_of-added u v xs ks = ground (
  arith,
  sensors_of-append u xs (map (λ k. (v, k)) ks),
  sensors_of-own u v ks,
  append_nil (sensors_of u xs),
)

module _ (wanted : List String) (str : Uuid → String) where
  -- A discovery of the uuid that is wanted, and of no dynamic group
  unfoldable pub counts : Uuid → ChromecastInfo → Bool
  counts u info =
      info.uuid == u
      && not (is_unwanted wanted (str info.uuid))
      && not (or_else info.is_dynamic_group false)

  -- The first of them; the discoveries have the last one first.
  unfoldable pub first_counted : Uuid → List (Moment × ChromecastInfo) → Option ChromecastInfo
  first_counted u [] = none
  first_counted u ((now, info) ∷ earlier) =
      or_option (first_counted u earlier) (if counts u info then some info else none)

abbrev pub sensors_of_first : Bool → Option ChromecastInfo → List Sensor
sensors_of_first has_topology none = []
sensors_of_first has_topology (some info) = sensors_for has_topology info

module _ {W : Type 0} (wanted : List String) (str : Uuid → String) (has_topology : Bool)
    (p : HealthPlatform W) (none_added : p.added_health_devices ≡ []) (none_there : p.sensors ≡ [])
    (u : Uuid) where
  -- A uuid is among the added ones exactly when it has had a discovery that counts.
  added-counted :
      (ds : List (Moment × ChromecastInfo))
      → contains u (all_discovered wanted str has_topology ds p).added_health_devices
        ≡ is_some (first_counted wanted str u ds)
  unfolding all_discovered health_discovered first_counted counts
  added-counted [] = rw none_added refl
  added-counted ((now, info) ∷ ds) = ground (arith, added-counted ds, same_iff info.uuid u)

  -- Where no sensors were added before, the sensors of a device after any discoveries are, once and in
  -- order, those for the first of its discoveries that is wanted and of no dynamic group; without such a
  -- discovery it has none.
  pub sensors-first :
      (ds : List (Moment × ChromecastInfo))
      → sensors_of u (all_discovered wanted str has_topology ds p).sensors
        ≡ sensors_of_first has_topology (first_counted wanted str u ds)
  unfolding all_discovered health_discovered first_counted counts sensors_of
  sensors-first [] = rw none_there refl
  sensors-first ((now, info) ∷ ds) =
      let q = all_discovered wanted str has_topology ds p in
      let grown = sensors_of-added u info.uuid q.sensors (sensors_for has_topology info) in
      elim (Bool-cases (info.uuid == u)) [
        | inl same ↦
            ground (
              arith,
              sensors-first ds,
              added-counted ds,
              (same_iff info.uuid u).0 same,
              grown,
              same,
            )
        | inr other ↦ ground (arith, sensors-first ds, grown, other)
      ]

-- ===== src/Diagnostics/Examples.antt =====
-- Tests of the diagnostics (custom_components/cast/diagnostics.py and mac.py).
use ha_int_gcast.Base.{◌≡◌, refl, false, some, none, List, [], ◌∷◌}
use ha_int_gcast.Diagnostics.Mac.{ServiceInfo, mac_of, resolve_mac}
use ha_int_gcast.Diagnostics.Report.{RegistryDevice, without_discovery}

abbrev leases : List ServiceInfo
leases = record { ip = "10.0.0.7"; macaddress = "aabb" } ∷ []

lease_found : resolve_mac (λ m. m) (some leases) (some "10.0.0.7") ≡ some "aabb"
unfolding resolve_mac mac_of
lease_found = refl

no_host : resolve_mac (λ m. m) (some leases) (some "") ≡ none
unfolding resolve_mac mac_of
no_host = refl

abbrev registered : List RegistryDevice
registered =
    record {
      id = "a";
      name_by_user = none;
      name = some "Kitchen";
      identifiers = ("cast", "ff") ∷ [];
      disabled = false;
    }
    ∷ []

discovered_left_out : without_discovery ("ff" ∷ []) registered ≡ []
unfolding without_discovery
discovered_left_out = refl

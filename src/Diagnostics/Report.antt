-- ===== src/Diagnostics/Report.antt =====
-- What the diagnostics of an entry say, custom_components/cast/diagnostics.py. Texts of uuids, networks
-- and times stay what they are; `get_url`, `urlparse` and the device registry are parameters. What the
-- redaction hides is data of its own.
use ha_int_gcast.Base.{
  ℕ, ◌≡◌, String, Bool, true, Option, none, some, List, [], ◌∷◌, map, ◌&&◌, any, is_some, contains,
  arith, ◌==◌, nat_eq, string_eq, if◌then◌else◌,
}
use ha_int_gcast.Base.Dict.{Dict}
use ha_int_gcast.Health.Types.{Uuid, DeviceHealth, DeliveryRecord}
use ha_int_gcast.Health.Ledger.{Ledger, device, health_of, str_truthy}
use ha_int_gcast.Topology.Address.{Network, contains_ip, as_ipv4}
use ha_int_gcast.Topology.Types.{ChromecastInfo, GroupTopology, TopologyTracker}
use ha_int_gcast.Probe.Snapshot.{ProbeOptions}
use ha_int_gcast.Probe.Tasks.{ProbeResult}

-- `_adapter_for`
unfoldable pub adapter_holding : ℕ → List Network → Option Network
adapter_holding ip [] = none
adapter_holding ip (net ∷ nets) =
    let later = adapter_holding ip nets in if contains_ip net ip then some net else later

abbrev adapter_at : Option ℕ → List Network → Option Network
adapter_at none networks = none
adapter_at (some ip) networks = adapter_holding ip networks

unfoldable pub adapter_for : Option String → List Network → Option Network
adapter_for host networks = adapter_at (as_ipv4 host) networks

-- A row of `devices`; the model, the manufacturer and the type come from the discovery as they are.
pub record DeviceRow : Type 0 where
  pub health : DeviceHealth
  pub is_audio_group : Bool
  pub is_dynamic_group : Option Bool
  pub subnet : Option Network
  pub mac : Option String

module _ {W : Type 0} (resolve_mac : Option String → Option String) (networks : List Network) where
  abbrev device_row : Ledger W → ChromecastInfo → DeviceRow
  device_row l info = record {
    health = health_of l info.uuid;
    is_audio_group = info.is_audio_group;
    is_dynamic_group = info.is_dynamic_group;
    subnet = adapter_for info.host networks;
    mac = resolve_mac info.host;
  }

  -- The loop over `discovered`; looking a device up makes it known to the ledger.
  unfoldable pub device_rows : Dict Uuid ChromecastInfo → Ledger W → List DeviceRow × Ledger W
  device_rows [] l = ([], l)
  device_rows ((u, info) ∷ infos) l =
      let (rows, l') = device_rows infos (device l u) in (device_row (device l u) info ∷ rows, l')

-- An entry of the device registry; an identifier is a domain with a text.
pub record RegistryDevice : Type 0 where
  pub id : String
  pub name_by_user : Option String
  pub name : Option String
  pub identifiers : List (String × String)
  pub disabled : Bool

-- `any(d == DOMAIN and i in discovered_hex for d, i in device.identifiers)`
abbrev has_discovery : List String → RegistryDevice → Bool
has_discovery discovered_hex d =
    any (λ i. i.0 == "cast" && contains i.1 discovered_hex) d.identifiers

-- `registry_without_discovery`
unfoldable pub without_discovery : List String → List RegistryDevice → List RegistryDevice
without_discovery discovered_hex [] = []
without_discovery discovered_hex (d ∷ devices) =
    let later = without_discovery discovered_hex devices in
    if has_discovery discovered_hex d then later else d ∷ later

-- `urls`, as far as the redaction leaves it
pub record UrlReport : Type 0 where
  pub internal_url : Option String
  pub internal_url_pinned : Bool
  pub internal_url_adapter : Option Network
  pub external_url_pinned : Bool
  pub url_overrides : Dict Uuid String

-- `urlparse(internal_url).hostname if internal_url else None`
abbrev host_in : (String → Option String) → Option String → Option String
host_in hostname none = none
host_in hostname (some url) = if str_truthy url then hostname url else none

unfoldable pub url_report :
    (String → Option String)
    → Option String
    → Option String
    → Option String
    → List Network
    → Dict Uuid String
    → UrlReport
url_report hostname internal_url pinned external_pinned networks overrides = record {
  internal_url = internal_url;
  internal_url_pinned = is_some pinned;
  internal_url_adapter = adapter_for (host_in hostname internal_url) networks;
  external_url_pinned = is_some external_pinned;
  url_overrides = overrides;
}

-- `probe`, with the coordinator's options and the decisions of its last update
pub record ProbeReport : Type 0 where
  pub options : Option ProbeOptions
  pub last_update_success : Option Bool
  pub decisions : Dict Uuid ProbeResult

unfoldable pub probe_report : Option (ProbeOptions × Bool × Dict Uuid ProbeResult) → ProbeReport
probe_report none = record { options = none; last_update_success = none; decisions = [] }
probe_report (some (options, success, decisions)) = record {
  options = some options;
  last_update_success = some success;
  decisions = decisions;
}

pub record Diagnostics : Type 0 where
  pub urls : UrlReport
  pub network : Option TopologyTracker
  pub devices : List DeviceRow
  pub groups : Dict Uuid GroupTopology
  pub ledger : List DeliveryRecord
  pub registry_without_discovery : List RegistryDevice
  pub probe : ProbeReport

abbrev networks_of : Option TopologyTracker → List Network
networks_of none = []
networks_of (some t) = t.adapter_networks

abbrev infos_of : Option TopologyTracker → Dict Uuid ChromecastInfo
infos_of none = []
infos_of (some t) = t.infos

abbrev groups_of : Option TopologyTracker → Dict Uuid GroupTopology
groups_of none = []
groups_of (some t) = t.groups

-- What the diagnostics ask Home Assistant: the URLs and whether they are pinned, the host name of a
-- URL, the hardware address of a host, the hexadecimal text of a uuid, the registry and the overrides.
pub record Surroundings : Type 0 where
  pub hostname : String → Option String
  pub internal_url : Option String
  pub pinned_internal : Option String
  pub pinned_external : Option String
  pub resolve_mac : Option String → Option String
  pub hex_of : Uuid → String
  pub registry : List RegistryDevice
  pub overrides : Dict Uuid String

-- `async_get_config_entry_diagnostics`, after the topology was refreshed
unfoldable pub diagnostics :
    {W : Type 0}
    → Surroundings
    → Option TopologyTracker
    → Option (ProbeOptions × Bool × Dict Uuid ProbeResult)
    → Ledger W
    → Diagnostics × Ledger W
diagnostics s topology coordinator l =
    let networks = networks_of topology in
    let (rows, l') = device_rows s.resolve_mac networks (infos_of topology) l in
    (
      record {
        urls =
            url_report s.hostname s.internal_url s.pinned_internal s.pinned_external networks
              s.overrides;
        network = topology;
        devices = rows;
        groups = groups_of topology;
        ledger = l'.records;
        registry_without_discovery =
            without_discovery (map (λ e. s.hex_of e.0) (infos_of topology)) s.registry;
        probe = probe_report coordinator;
      },
      l',
    )

-- The adapter that is named for a host holds its address.
pub adapter_holding-contains :
    (ip : ℕ) (nets : List Network) (net : Network)
    → adapter_holding ip nets ≡ some net
    → contains_ip net ip ≡ true
unfolding adapter_holding
adapter_holding-contains ip [] net e = ground arith
adapter_holding-contains ip (n ∷ nets) net e = ground (arith, adapter_holding-contains ip nets net)

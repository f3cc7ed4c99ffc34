-- ===== src/Diagnostics/Mac.antt =====
-- `async_resolve_mac` of custom_components/cast/mac.py, with `format_mac` as a parameter.
use ha_int_gcast.Base.{String, Option, none, some, List, [], ◌∷◌, ◌==◌, string_eq, if◌then◌else◌}
use ha_int_gcast.Health.Ledger.{str_truthy}

-- What Home Assistant's dhcp integration has seen
pub record ServiceInfo : Type 0 where
  pub ip : String
  pub macaddress : String

-- The loop over the service infos
unfoldable pub mac_of : (String → String) → String → List ServiceInfo → Option String
mac_of format_mac host [] = none
mac_of format_mac host (info ∷ infos) =
    let later = mac_of format_mac host infos in
    if info.ip == host then some (format_mac info.macaddress) else later

-- `async_resolve_mac`; `none` for the infos is that dhcp is not loaded.
abbrev resolve_host : (String → String) → Option (List ServiceInfo) → String → Option String
resolve_host format_mac none host = none
resolve_host format_mac (some infos) host =
    if str_truthy host then mac_of format_mac host infos else none

unfoldable pub resolve_mac :
    (String → String) → Option (List ServiceInfo) → Option String → Option String
resolve_mac format_mac dhcp none = none
resolve_mac format_mac dhcp (some host) = resolve_host format_mac dhcp host
